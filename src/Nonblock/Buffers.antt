-- ===== src/Nonblock/Buffers.antt =====
-- What a buffer holds: the bytes that came and have not gone.
use network.Prelude.{
  ℕ, zero, suc, ◌+◌, ◌≤◌, ◌<◌, ◌≡◌, refl, sym, ap, ◌∙◌, inl, inr, List, [], ◌∷◌, ◌++◌, append_assoc,
  arith,
}
use network.Prelude.Tests.{◌==◌, ==_iff, Bool-cases}
use network.Prelude.Lists.{
  length, take, drop, length-append, length-drop, drop-drop, take-append-drop, drop_all,
}
use network.Nonblock.{Buffer, reset, room, rest, fill, advance, maxline}

-- The pointers are in order and inside the buffer, an empty buffer starts again at its beginning, and
-- what came in is what went out and the rest.
pub record Holds (b : Buffer) (came gone : List ℕ) : Type 0 where
  pub bounded : b.optr ≤ length b.text
  pub fits : length b.text ≤ maxline
  pub starts_again : b.optr ≡ length b.text → b.text ≡ []
  pub keeps : came ≡ gone ++ rest b

pub reset-Holds : Holds reset [] []
unfolding reset rest
reset-Holds = record {
  bounded = omega arith;
  fits = omega arith;
  starts_again = λ h. refl;
  keeps = refl;
}

drop-append_le : (n : ℕ) (xs ys : List ℕ) → n ≤ length xs → drop n (xs ++ ys) ≡ drop n xs ++ ys
drop-append_le zero xs ys h = refl
drop-append_le (suc n) [] ys h = absurd (omega arith)
drop-append_le (suc n) (x ∷ xs) ys h = drop-append_le n xs ys (omega arith)

pub fill-Holds :
    (b : Buffer) (came gone bs : List ℕ)
    → Holds b came gone
    → 0 < length bs
    → length bs ≤ room b
    → Holds (fill bs b) (came ++ bs) gone
unfolding fill room rest
fill-Holds b came gone bs v some small = record {
  bounded = omega (arith, v.bounded, length-append b.text bs);
  fits = omega (arith, v.fits, length-append b.text bs);
  starts_again = λ h. absurd (omega (arith, v.bounded, length-append b.text bs));
  keeps =
      ap (λ l. l ++ bs) v.keeps
      ∙ append_assoc gone (rest b) bs
      ∙ ap (λ l. gone ++ l) (sym (drop-append_le b.optr b.text bs v.bounded));
}

-- The output pointer moves over the bytes that were taken.
moved :
    (b : Buffer) (came gone : List ℕ) (n : ℕ)
    → Holds b came gone
    → came ≡ (gone ++ take n (rest b)) ++ drop (b.optr + n) b.text
unfolding rest
moved b came gone n v =
    v.keeps
    ∙ ap (λ l. gone ++ l) (sym (take-append-drop n (rest b)))
    ∙ sym (append_assoc gone (take n (rest b)) (drop n (rest b)))
    ∙ ap (λ l. (gone ++ take n (rest b)) ++ l) (drop-drop b.optr n b.text)

pub advance-Holds :
    (b : Buffer) (came gone : List ℕ) (n : ℕ)
    → Holds b came gone
    → n ≤ length (rest b)
    → Holds (advance n b) came (gone ++ take n (rest b))
unfolding advance rest reset
advance-Holds b came gone n v small =
    let inside : b.optr + n ≤ length b.text =
      omega (arith, small, length-drop b.optr b.text, v.bounded) in
    elim (Bool-cases (b.optr + n == length b.text)) [
      | inl e ↦
          let meet = (==_iff (b.optr + n) (length b.text)).0 e in
          rw e (record {
            bounded = omega arith;
            fits = omega arith;
            starts_again = λ h. refl;
            keeps =
                moved b came gone n v
                ∙ ap (λ l. (gone ++ take n (rest b)) ++ l)
                    (drop_all (b.optr + n) b.text (omega (arith, meet)));
          })
      | inr e ↦ rw e (record {
        bounded = inside;
        fits = v.fits;
        starts_again = λ h. absurd (cc (e, (==_iff (b.optr + n) (length b.text)).1 h));
        keeps = moved b came gone n v;
      })
    ]
