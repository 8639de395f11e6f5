-- ===== src/Logstore/Halves.antt =====
-- logstore.py, `_Drv`: what is retained of the lines of a derivation.
use nixbot.Prelude.{
  ℕ, ◌+◌, ◌-◌, ◌≤◌, ◌<◌, ◌≡◌, refl, ap, subst, sym, ◌∙◌, List, [], ◌∷◌, ◌++◌, length, length-append,
  append_assoc, append-nil, ltb, ltb→lt, lt→ltb, min, String, Bool-cases, inl, inr, arith,
}
use nixbot.Logstore.{Drv, new_drv, append, pop_tail, drv_lines}

unfoldable pub add_all : List String → ℕ → Drv → Drv
add_all [] half d = d
add_all (text ∷ texts) half d = add_all texts half (append text half d)

-- A derivation that was given these lines: its first, those that were dropped, and its last.
record IsRetained (half : ℕ) (d : Drv) (all : List String) : Type 0 where
  lost : List String
  whole : all ≡ d.head ++ (lost ++ d.tail)
  counted : length lost ≡ d.dropped
  first : length d.head ≡ min half (length all)
  last : length d.tail ≡ min half (length all - half)

no_length : (xs : List String) → length xs ≡ 0 → xs ≡ []
no_length [] h = refl
no_length (x ∷ xs) h = absurd (omega (arith, h))

-- What `popleft` takes from the tail is lost.
pop_tail-IsRetained :
    (half : ℕ) (tail lost : List String) (d : Drv) (all : List String)
    → all ≡ d.head ++ (lost ++ tail)
    → length lost ≡ d.dropped
    → length d.head ≡ min half (length all)
    → length all ≡ half + length lost + length tail
    → length lost + half < length all
    → length tail ≤ half + 1
    → (0 < length lost → half ≤ length tail)
    → IsRetained half (pop_tail half tail d) all
pop_tail-IsRetained half [] lost d all whole counted first total more long full =
    absurd (omega (arith, total, more))
pop_tail-IsRetained half (text ∷ tail) lost d all whole counted first total more long full =
    elim (Bool-cases (ltb half (length (text ∷ tail)))) [
      | inl e ↦ rw e (record {
        lost = lost ++ text ∷ [];
        whole = whole ∙ ap (λ l. d.head ++ l) (sym (append_assoc lost (text ∷ []) tail));
        counted = omega (arith, length-append lost (text ∷ []), counted);
        first = first;
        last = omega (arith, ltb→lt half (length (text ∷ tail)) e, total, long);
      })
      | inr e ↦ rw e (record {
        lost = lost;
        whole = whole;
        counted = counted;
        first = first;
        last = ground (arith, e, total, full);
      })
    ]

append-IsRetained :
    (half : ℕ) (text : String) (d : Drv) (all : List String)
    → IsRetained half d all
    → IsRetained half (append text half d) (all ++ text ∷ [])
unfolding append
append-IsRetained half text d all c =
    let total : length all ≡ length d.head + (length c.lost + length d.tail) = omega (
      arith,
      ap length c.whole,
      length-append d.head (c.lost ++ d.tail),
      length-append c.lost d.tail,
    ) in
    let longer = length-append all (text ∷ []) in
    elim (Bool-cases (ltb (length d.head) half)) [
      | inl e ↦
          let room = ltb→lt (length d.head) half e in
          let none_lost = no_length c.lost (omega (arith, room, c.first, total)) in
          let no_tail = no_length d.tail (omega (arith, room, c.first, total)) in
          let only : all ≡ d.head =
            c.whole
            ∙ ap (λ l. d.head ++ (l ++ d.tail)) none_lost
            ∙ ap (λ l. d.head ++ l) no_tail
            ∙ append-nil d.head in
          rw (e, append)
            (record {
              lost = [];
              whole =
                  ap (λ l. l ++ text ∷ []) only
                  ∙ sym (append-nil (d.head ++ text ∷ []))
                  ∙ ap (λ l. (d.head ++ text ∷ []) ++ l) (sym no_tail);
              counted = omega (arith, c.counted, ap length none_lost);
              first = omega (arith, room, c.first, longer, length-append d.head (text ∷ []));
              last = omega (arith, room, c.first, longer, ap length no_tail);
            })
      | inr e ↦
          let full : length d.head ≡ half = ground (arith, e, c.first) in
          let tail = length-append d.tail (text ∷ []) in
          rw (e, append)
            (pop_tail-IsRetained half (d.tail ++ text ∷ []) c.lost d (all ++ text ∷ [])
              (ap (λ l. l ++ text ∷ []) c.whole
                ∙ append_assoc d.head (c.lost ++ d.tail) (text ∷ [])
                ∙ ap (λ l. d.head ++ l) (append_assoc c.lost d.tail (text ∷ [])))
              c.counted (omega (arith, full, longer, total))
              (omega (arith, full, longer, total, tail)) (omega (arith, full, longer, total, tail))
              (omega (arith, c.last, tail))
              (λ some_lost. omega (arith, some_lost, c.last, total, full, tail)))
    ]

add_all-IsRetained :
    (half : ℕ) (texts : List String) (d : Drv) (all : List String)
    → IsRetained half d all
    → IsRetained half (add_all texts half d) (all ++ texts)
unfolding add_all
add_all-IsRetained half [] d all c = rw (append-nil all) c
add_all-IsRetained half (text ∷ texts) d all c =
    subst (λ l. IsRetained half (add_all texts half (append text half d)) l)
      (append_assoc all (text ∷ []) texts)
      (add_all-IsRetained half texts (append text half d) (all ++ text ∷ [])
        (append-IsRetained half text d all c))

-- The line in the middle, if any is left out.
abbrev pub elision : (ℕ → String) → List String → List String
elision elided [] = []
elision elided (text ∷ lost) = elided (length (text ∷ lost)) ∷ []

lines-elision :
    (elided : ℕ → String) (d : Drv) (lost : List String)
    → length lost ≡ d.dropped
    → drv_lines elided d ≡ d.head ++ (elision elided lost ++ d.tail)
unfolding drv_lines
lines-elision elided d [] h = ground (arith, h)
lines-elision elided d (text ∷ lost) h =
    rw (lt→ltb 0 d.dropped (omega (arith, h)), drv_lines)
      (ap (λ n. d.head ++ elided n ∷ d.tail) (sym h))

-- The lines of a derivation to which lines were appended, for any half of the cap, are the first
-- ones, up to half, the line that stands for those left out if any are, and the last ones, up to
-- half of what is past the first.
pub append-lines :
    (elided : ℕ → String) (half : ℕ) (name : String) (texts : List String)
    → (first lost last : List String) × (texts ≡ first ++ (lost ++ last))
      × (drv_lines elided (add_all texts half (new_drv name))
          ≡ first ++ (elision elided lost ++ last))
      × (length first ≡ min half (length texts))
      × (length last ≡ min half (length texts - half))
append-lines elided half name texts =
    let d = add_all texts half (new_drv name) in
    let c = add_all-IsRetained half texts (new_drv name) [] (record {
      lost = [];
      whole = refl;
      counted = refl;
      first = omega arith;
      last = omega arith;
    }) in
    (d.head, c.lost, d.tail, c.whole, lines-elision elided d c.lost c.counted, c.first, c.last)
