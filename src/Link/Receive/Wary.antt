-- ===== src/Link/Receive/Wary.antt =====
-- What the steps of receive_message leave of a link.
use udpproxy.Prelude.{
  ℕ, ◌+◌, ◌%◌, ◌^◌, ◌≡◌, refl, ◌⊎◌, inl, Bool, false, ◌&&◌, Option, none, some, arith,
}
use udpproxy.Link.{
  Link, SigningState, SigningStatus, bad_signature, replay, old_timestamp, no_streams,
  too_many_streams, other_status, Wire, seen_signing, put_signing,
}
use udpproxy.Link.Receive.{
  Text, say, bad_key, replayed, old_stamp, missing_streams, bad_streams, note_asked, distrust, warn,
  counted, explain, refuse,
}

pub put_signing-key :
    (s : Option SigningState) (l : Link)
    → ((put_signing s l).key_id ≡ l.key_id)
      × ((put_signing s l).key_loaded ≡ l.key_loaded)
      × ((put_signing s l).got_signed_packet ≡ l.got_signed_packet)
      × ((put_signing s l).attached ≡ l.attached)
put_signing-key none l = (refl, refl, refl, refl)
put_signing-key (some s) l = (refl, refl, refl, refl)

pub note_asked-key :
    (asked : Bool) (l : Link)
    → ((note_asked asked l).key_id ≡ l.key_id)
      × ((note_asked asked l).key_loaded ≡ l.key_loaded)
      × ((note_asked asked l).got_signed_packet ≡ l.got_signed_packet)
unfolding note_asked
note_asked-key asked l = ground arith

pub note_asked-bad :
    (asked : Bool) (l : Link)
    → l.got_bad_signature ≡ false
    → (note_asked asked l).got_bad_signature ≡ (asked && l.attached)
unfolding note_asked
note_asked-bad asked l clean = ground (arith, clean)

-- The operations on a refused message leave the key's number, and never make the peer known.
abbrev pub Wary : Link → Link → Type 0
Wary l after =
    (after.key_id ≡ l.key_id)
    × ((after.got_signed_packet ≡ false) ⊎ (after.got_signed_packet ≡ l.got_signed_packet))

-- Saying a text changes at most the state of the signatures.
say-link :
    (wire : Wire) (text : Text) (l : Link)
    → ((say wire text l).0.key_id ≡ l.key_id)
      × ((say wire text l).0.got_signed_packet ≡ l.got_signed_packet)
unfolding say
say-link wire text l =
    let k = put_signing-key (wire.pack_text (seen_signing l) l.last_sysid l.last_compid) l in
    (k.0, k.2)

pub warn-link :
    (wire : Wire) (now : ℕ) (text : Text) (l : Link)
    → ((warn wire now text l).0.key_id ≡ l.key_id)
      × ((warn wire now text l).0.got_signed_packet ≡ l.got_signed_packet)
unfolding warn
warn-link wire now text l =
    let s = say-link wire text (record l { last_signing_warning = now }) in ground (arith, s)

distrusted_say : (wire : Wire) (text : Text) (l : Link) → Wary l (distrust (say wire text l)).0
unfolding distrust
distrusted_say wire text l = ((say-link wire text l).0, inl refl)

counted-Wary : (wire : Wire) (text : Text) (l : Link) → Wary l (counted wire text l).0
unfolding counted distrust
counted-Wary wire text l =
    let s = say-link wire text (record l { bad_sig_count = (l.bad_sig_count + 1) % 2 ^ 32 }) in
    ground (arith, s)

explain-Wary : (wire : Wire) (status : SigningStatus) (l : Link) → Wary l (explain wire status l).0
unfolding explain
explain-Wary wire bad_signature l = counted-Wary wire bad_key l
explain-Wary wire replay l = counted-Wary wire replayed l
explain-Wary wire old_timestamp l = distrusted_say wire old_stamp l
explain-Wary wire no_streams l = distrusted_say wire missing_streams l
explain-Wary wire too_many_streams l = distrusted_say wire bad_streams l
explain-Wary wire other_status l = counted-Wary wire bad_key l

pub refuse-link : (wire : Wire) (now : ℕ) (l : Link) → Wary l (refuse wire now l).0
unfolding refuse distrust
refuse-link wire now l =
    let e = explain-Wary wire l.signing.last_status (record l { last_signing_warning = now }) in
    ground (arith, e)
