-- ===== src/Link/Receive.antt =====
-- receive_message of mavlink.cpp, with periodic_warning and accept_unsigned_callback. The clock
-- stands still during a call.
pub mod Wary
pub mod Trust
pub mod Heard
use udpproxy.Prelude.{
  ℕ, ◌+◌, ◌%◌, ◌^◌, Bool, true, false, not, ◌&&◌, Option, none, some, List, [], ◌∷◌, ltb, ◌==◌,
  if◌then◌else◌,
}
use Prim.Native.Nat.{bit_and}
use udpproxy.Message.{Message, Dialect}
use udpproxy.Database.Tdb.{Tdb}
use udpproxy.Link.{
  Link, SigningStatus, bad_signature, replay, old_timestamp, no_streams, too_many_streams,
  other_status, Wire, seen_signing, put_signing,
}
use udpproxy.Link.Signing.{handle_setup_signing}

pub data Text : Type 0 where
  need_to_setup need_to_use bad_key replayed old_stamp missing_streams bad_streams : Text

-- mav_printf, which also packs the text as a message that the link signs.
pub say : Wire → Text → Link → Link × List Text
say wire text l =
    (put_signing (wire.pack_text (seen_signing l) l.last_sysid l.last_compid) l, text ∷ [])

-- periodic_warning, and mav_printf if it returns true.
pub warn : Wire → ℕ → Text → Link → Link × List Text
warn wire now text l =
    if ltb (l.last_signing_warning + 2_000_000) now
    then say wire text (record l { last_signing_warning = now })
    else (l, [])

-- accept_unsigned_callback, which the library asks about messages that it would refuse.
unfoldable pub note_asked : Bool → Link → Link
note_asked asked l = if asked && l.attached then record l { got_bad_signature = true } else l

distrust : Link × List Text → Link × List Text
distrust (l, texts) = (record l { got_signed_packet = false }, texts)

-- The two kinds of failure that are dropped in silence until the third of them.
counted : Wire → Text → Link → Link × List Text
unfolding distrust
counted wire text l =
    let l' = record l { bad_sig_count = (l.bad_sig_count + 1) % 2 ^ 32 } in
    if ltb l'.bad_sig_count 3 then (l', []) else distrust (say wire text l')

explain : Wire → SigningStatus → Link → Link × List Text
unfolding counted distrust
explain wire bad_signature l = counted wire bad_key l
explain wire replay l = counted wire replayed l
explain wire old_timestamp l = distrust (say wire old_stamp l)
explain wire no_streams l = distrust (say wire missing_streams l)
explain wire too_many_streams l = distrust (say wire bad_streams l)
explain wire other_status l = counted wire bad_key l

-- `if (got_bad_signature[chan])`.
pub refuse : Wire → ℕ → Link → Link × List Text
unfolding explain distrust
refuse wire now l =
    if ltb (l.last_signing_warning + 2_000_000) now
    then explain wire l.signing.last_status (record l { last_signing_warning = now })
    else distrust (l, [])

unfoldable pub trust : Link → Link
trust l = record l { bad_sig_count = 0; got_signed_packet = true }

abbrev pub has_key_id : Option ℕ → Bool
has_key_id none = false
has_key_id (some id) = true

-- The system's part in one call: the clock, whether a transaction starts, whether malloc succeeds.
pub record Env : Type 0 where
  pub now : ℕ
  pub opens : Bool
  pub allocates : Bool

-- `msg.incompat_flags & MAVLINK_IFLAG_SIGNED`.
unfoldable pub is_signed : Wire → Message → Bool
is_signed wire msg = not (bit_and msg.incompat_flags wire.iflag_signed == 0)

module _ (d : Dialect) (tdb : Tdb) (wire : Wire) where
  open tdb use {Db}
  open wire use {Parser, parse_char}

  -- What receive_message makes of one message: whether it returns true.
  pub record Judged : Type 0 where
    pub pass : Bool
    pub db : Db
    pub link : Link
    pub texts : List Text

  failed : Db → Link × List Text → Judged
  failed db (l, texts) = record { pass = false; db = db; link = l; texts = texts }

  -- After a good signature.
  unfoldable pub signed : Env → Db → Link → Message → Judged
  signed env db l msg =
      let setup =
        handle_setup_signing tdb db env.opens env.allocates env.now (d.decode_setup_signing msg)
          (trust l) in
      if msg.msgid == d.id_setup_signing
      then record { pass = false; db = setup.0; link = setup.1; texts = [] }
      else record { pass = true; db = db; link = trust l; texts = [] }

  unfoldable pub judge : Env → Db → Link → Message → Judged
  unfolding failed signed distrust
  judge env db l msg =
      if has_key_id l.key_id
      then (if l.key_loaded
          then (if is_signed wire msg
              then (if l.got_bad_signature
                  then failed db (refuse wire env.now l)
                  else signed env db l msg)
              else failed db (distrust (warn wire env.now need_to_use l)))
          else failed db (warn wire env.now need_to_setup l))
      else record { pass = true; db = db; link = l; texts = [] }

  -- Everything a call of receive_message reads and writes: `rest` is what `buf` and `len` leave.
  pub record Received : Type 0 where
    pub result : Option Message
    pub rest : List ℕ
    pub parser : Parser
    pub db : Db
    pub link : Link
    pub texts : List Text

  unfoldable pub judged : Message → List ℕ → Parser → Judged → Received
  judged msg rest p j = record {
    result = if j.pass then some msg else none;
    rest = rest;
    parser = p;
    db = j.db;
    link = j.link;
    texts = j.texts;
  }

  -- The loop over the bytes.
  unfoldable pub parse_bytes : Env → Db → Parser → Link → List ℕ → Received
  unfolding judged
  parse_bytes env db p l [] = record {
    result = none;
    rest = [];
    parser = p;
    db = db;
    link = l;
    texts = [];
  }
  parse_bytes env db p l (b ∷ bs) =
      let (p', s, parsed) = parse_char p (seen_signing l) b in
      let l' = put_signing s l in
      elim parsed [
        | none ↦ parse_bytes env db p' l' bs
        | some m ↦ judged m.message bs p' (judge env db (note_asked m.asked l') m.message)
      ]

  unfoldable pub receive_message : Env → Db → Parser → Link → List ℕ → Received
  receive_message env db p l bytes =
      parse_bytes env db p (record l { got_bad_signature = false }) bytes
