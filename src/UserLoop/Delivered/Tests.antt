-- ===== src/UserLoop/Delivered/Tests.antt =====
-- A heartbeat, a block and a block's status, with one engineer on TCP.
use udpproxy.Prelude.{refl, [], ◌∷◌, arith}
use udpproxy.UserLoop.{user_messages}
use udpproxy.UserLoop.Delivered.{IsDelivered, user_messages-IsDelivered}
use udpproxy.UserLoop.Tests.{dialect, to_buffer, incoming, flight, setup, engineer, start}

user_messages-IsDelivered_example :
    IsDelivered dialect to_buffer
      (λ bytes. 3)
      setup
      flight
      start
      (user_messages dialect to_buffer setup flight start)
      0
      engineer
user_messages-IsDelivered_example =
    user_messages-IsDelivered dialect to_buffer (λ bytes. 3) setup (incoming 0)
      (incoming 184 ∷ incoming 185 ∷ []) start 0 engineer refl refl refl refl
      ((omega arith, refl, refl), ((omega arith, refl, refl), ((omega arith, refl, refl), tt)))
      (
        (omega arith, λ rest. refl),
        ((omega arith, λ rest. refl), ((omega arith, λ rest. refl), tt)),
      )
      ((λ i. refl), ((λ i. refl), ((λ i. refl), tt))) (omega arith) (omega arith) refl refl
