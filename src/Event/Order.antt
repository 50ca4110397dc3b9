-- ===== src/Event/Order.antt =====
-- crates/maybenot/src/event.rs: the numbering of the events and the list of all of them.
use maybenot.Prelude.{◌≡◌, sym, ap, ◌∙◌, refl, index, ok, ◌<◌, arith}
use maybenot.Event.{events, Event, to_usize}
use maybenot.Constants.{event_num}

pub to_usize-lt : (e : Event) → to_usize e < event_num
unfolding to_usize
to_usize-lt e = ground arith

-- `events` lists each event at its own number.
pub index-to_usize : (e : Event) → index events (to_usize e) ≡ ok e
unfolding index to_usize
index-to_usize Event.normal_recv = refl
index-to_usize Event.padding_recv = refl
index-to_usize Event.tunnel_recv = refl
index-to_usize _ = refl

pub to_usize_injective : (a b : Event) → to_usize a ≡ to_usize b → a ≡ b
to_usize_injective a b h =
    let p : index events (to_usize a) ≡ index events (to_usize b) = ap (index events) h in
    ok_injective (sym (index-to_usize a) ∙ p ∙ index-to_usize b)
  where
    ok_injective : {x y : Event} → ok x ≡ ok y → x ≡ y
    ok_injective e = cc
