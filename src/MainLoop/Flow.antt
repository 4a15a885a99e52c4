-- ===== src/MainLoop/Flow.antt =====
-- How a part of the body of the `while (1)` of main_loop in supportproxy.cpp ends, and what holds of
-- the states from which the loop goes on.
use udpproxy.Prelude.{}

pub data Flow (S : Type 0) : Type 0 where
  fall : S → Flow S  -- go on behind the part
  again : S → Flow S  -- `continue`
  leave : S → Flow S  -- `break`
  exits : S → Flow S  -- exit(1)
  overrun : S → Flow S  -- read beyond conn2

infixl 5 ◌>>=◌
abbrev pub ◌>>=◌ : {S : Type 0} → Flow S → (S → Flow S) → Flow S
fall s >>= f = f s
again s >>= f = again s
leave s >>= f = leave s
exits s >>= f = exits s
overrun s >>= f = overrun s

-- The next round of the loop.
unfoldable pub resume : {S : Type 0} → Flow S → (S → Flow S) → Flow S
resume (fall s) f = f s
resume (again s) f = f s
resume (leave s) f = leave s
resume (exits s) f = exits s
resume (overrun s) f = overrun s

-- Behind the part Q holds, and P where the loop goes on at its top.
abbrev pub After : {S : Type 0} → (S → Type 0) → (S → Type 0) → Flow S → Type 0
After P Q (fall s) = Q s
After P Q (again s) = P s
After P Q (leave s) = Unit
After P Q (exits s) = Unit
After P Q (overrun s) = Unit

abbrev pub Keeps : {S : Type 0} → (S → Type 0) → Flow S → Type 0
Keeps P m = After P P m

-- The loop does not go on.
abbrev pub Stops : {S : Type 0} → Flow S → Type 0
Stops m = Keeps (λ s. ⊥) m

module _ {S : Type 0} (P Q R : S → Type 0) where
  pub After-bind :
      (m : Flow S) (f : S → Flow S)
      → After P Q m
      → ((s : S) → Q s → After P R (f s))
      → After P R (m >>= f)
  After-bind (fall s) f h k = k s h
  After-bind (again s) f h k = h
  After-bind (leave s) f h k = tt
  After-bind (exits s) f h k = tt
  After-bind (overrun s) f h k = tt

module _ {S : Type 0} (P Q : S → Type 0) where
  pub Keeps-resume :
      (m : Flow S) (f : S → Flow S)
      → Keeps P m
      → ((s : S) → P s → Keeps Q (f s))
      → Keeps Q (resume m f)
  unfolding resume
  Keeps-resume (fall s) f h k = k s h
  Keeps-resume (again s) f h k = k s h
  Keeps-resume (leave s) f h k = tt
  Keeps-resume (exits s) f h k = tt
  Keeps-resume (overrun s) f h k = tt

pub Keeps-map :
    {S : Type 0} (P Q : S → Type 0) (m : Flow S) → ((s : S) → P s → Q s) → Keeps P m → Keeps Q m
Keeps-map P Q (fall s) f h = f s h
Keeps-map P Q (again s) f h = f s h
Keeps-map P Q (leave s) f h = tt
Keeps-map P Q (exits s) f h = tt
Keeps-map P Q (overrun s) f h = tt

-- The part ends behind itself, where Q holds, or by reading beyond conn2.
abbrev pub Until : {S : Type 0} → (S → Type 0) → Flow S → Type 0
Until Q (fall s) = Q s
Until Q (again s) = ⊥
Until Q (leave s) = ⊥
Until Q (exits s) = ⊥
Until Q (overrun s) = Unit

pub Until-bind :
    {S : Type 0} (Q R : S → Type 0) (m : Flow S) (f : S → Flow S)
    → Until Q m
    → ((s : S) → Q s → Until R (f s))
    → Until R (m >>= f)
Until-bind Q R (fall s) f h k = k s h
Until-bind Q R (again s) f h k = absurd h
Until-bind Q R (leave s) f h k = absurd h
Until-bind Q R (exits s) f h k = absurd h
Until-bind Q R (overrun s) f h k = tt
