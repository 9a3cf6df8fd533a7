-- ===== src/Sigio/Main.antt =====
-- The statements of the main loop.
use network.Prelude.{
  suc, ◌-◌, ◌<◌, ◌≡◌, ◌≢◌, refl, sym, ap, subst, ◌∙◌, inl, inr, [], ◌∷◌, ◌++◌, map, append_assoc,
  arith,
}
use network.Prelude.Tests.{◌==◌, ==_iff, Bool-cases}
use network.Ring.{after, contents, steps}
use network.Ring.Laws.{after_below}
use network.Sigio.{qsize, at_top, unblocked, behind_send, behind_get, Server, outgoing, advance}
use network.Sigio.Queue.{front, held, waiting, Inv, following-after}
use network.Sigio.Spec.{echoes, none, then_move, view, Goes}

-- A claim for every place holds for every state.
at_places :
    (P : Server → Type 0) (s : Server)
    → P (record s { place = at_top })
    → P (record s { place = unblocked })
    → P (record s { place = behind_send })
    → P (record s { place = behind_get })
    → P s
at_places P s a b c d = elim s.place as (λ x. P (record s { place = x })) [
  | at_top ↦ a
  | unblocked ↦ b
  | behind_send ↦ c
  | behind_get ↦ d
]

top_Goes :
    (s : Server)
    → let x = record s { place = at_top } in
      Inv x → (x.arrived ≡ x.echoed ++ waiting x) → Goes x (advance x)
unfolding Goes view waiting front held advance
top_Goes s v e = elim (Bool-cases (s.nqueue == 0)) [
  | inl q ↦ rw (advance, q) (v, none, e)
  | inr q ↦
      let busy : s.nqueue ≢ 0 = λ z. absurd (cc (q, (==_iff s.nqueue 0).1 z)) in
      rw (advance, q)
        (
          record {
            front_inside = v.front_inside;
            iget_inside = v.iget_inside;
            few = v.few;
            ends = v.ends;
            some_left = λ z. omega (arith, busy);
          },
          none,
          e,
        )
]

unblocked_Goes :
    (s : Server)
    → let x = record s { place = unblocked } in
      Inv x → (x.arrived ≡ x.echoed ++ waiting x) → Goes x (advance x)
unfolding Goes view waiting front held advance contents steps
unblocked_Goes s v e =
    let some_left : 0 < s.nqueue = v.some_left (λ q. cc q) in
    let more : s.nqueue ≡ suc (s.nqueue - 1) = omega arith in
    let rest = map outgoing (contents qsize s.dg (after qsize s.iget) (s.nqueue - 1)) in
    let split : map outgoing (contents qsize s.dg s.iget s.nqueue) ≡ outgoing (s.dg s.iget) ∷ rest =
      ap (λ n. map outgoing (contents qsize s.dg s.iget n)) more in
    (
      record {
        front_inside = after_below qsize s.iget v.iget_inside;
        iget_inside = v.iget_inside;
        few = v.few;
        ends = v.ends ∙ ap (steps qsize s.iget) more;
        some_left = λ q. some_left;
      },
      then_move none (echoes (outgoing (s.dg s.iget)) rest split),
      e
          ∙ ap (λ l. s.echoed ++ l) split
          ∙ sym (append_assoc s.echoed (outgoing (s.dg s.iget) ∷ []) rest),
    )

behind_send_Goes :
    (s : Server)
    → let x = record s { place = behind_send } in
      Inv x → (x.arrived ≡ x.echoed ++ waiting x) → Goes x (advance x)
unfolding Goes view waiting front held advance
behind_send_Goes s v e =
    subst (λ k. Goes (record s { place = behind_send }) (record s { place = behind_get; iget = k }))
      (sym (following-after s.iget v.iget_inside))
      (
        record {
          front_inside = v.front_inside;
          iget_inside = v.front_inside;
          few = v.few;
          ends = v.ends;
          some_left = λ q. v.some_left (λ z. cc z);
        },
        none,
        e,
      )

behind_get_Goes :
    (s : Server)
    → let x = record s { place = behind_get } in
      Inv x → (x.arrived ≡ x.echoed ++ waiting x) → Goes x (advance x)
unfolding Goes view waiting front held advance
behind_get_Goes s v e = (
  record {
    front_inside = v.front_inside;
    iget_inside = v.iget_inside;
    few = omega (arith, v.few);
    ends = v.ends;
    some_left = λ q. absurd (q refl);
  },
  none,
  e,
)

pub advance-Goes : (s : Server) → Inv s → (s.arrived ≡ s.echoed ++ waiting s) → Goes s (advance s)
advance-Goes s =
    at_places (λ x. Inv x → (x.arrived ≡ x.echoed ++ waiting x) → Goes x (advance x)) s (top_Goes s)
      (unblocked_Goes s) (behind_send_Goes s) (behind_get_Goes s)
