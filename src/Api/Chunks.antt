-- ===== src/Api/Chunks.antt =====
-- What `complete_utf8_prefix_length` of src/openai_api.cpp holds back of a text that arrives in
-- pieces, against the encoding of characters.
use radixforge.Common.{
  ℕ, zero, suc, ◌+◌, ◌≤◌, ◌<◌, ◌≡◌, ◌⊎◌, refl, ap, ◌∙◌, true, false, List, [], ◌∷◌, ◌++◌, length,
  length-append, All, arith,
}
use mathlib.Core.List.{reverse, reverse_aux, append_assoc, append-nil}
use radixforge.Api.Utf8.{
  is_continuation, expected, walk_back, cut_at_lead, complete_utf8_prefix_length,
}

-- The first byte of a UTF-8 character and how many bytes the character has.
abbrev pub HasWidth : ℕ → ℕ → Type 0
HasWidth lead width =
    ((lead < 128) × (width ≡ 1))
    ⊎ ((194 ≤ lead) × (lead ≤ 223) × (width ≡ 2))
    ⊎ ((224 ≤ lead) × (lead ≤ 239) × (width ≡ 3))
    ⊎ ((240 ≤ lead) × (lead ≤ 244) × (width ≡ 4))

-- A byte behind the first one.
abbrev pub IsTrail : ℕ → Type 0
IsTrail c = (128 ≤ c) × (c < 192)

-- All bytes of one character.
abbrev pub IsCharacter : List ℕ → Type 0
IsCharacter [] = ⊥
IsCharacter (lead ∷ tail) = All IsTrail tail × HasWidth lead (suc (length tail))

-- Nothing, or the first bytes of a character that has more.
abbrev pub IsPartial : List ℕ → Type 0
IsPartial [] = Unit
IsPartial (lead ∷ tail) =
    All IsTrail tail × ((width : ℕ) × HasWidth lead width × (suc (length tail) < width))

-- The tests of the code.
abbrev IsTail : ℕ → Type 0
IsTail c = is_continuation c ≡ true

abbrev IsBegun : ℕ → List ℕ → Type 0
IsBegun lead tail = (is_continuation lead ≡ false) × All IsTail tail

IsTail-All : (cs : List ℕ) → All IsTrail cs → All IsTail cs
IsTail-All [] h = tt
IsTail-All (c ∷ cs) h = (ground (arith, h.0), IsTail-All cs (h.1))

is_continuation-lead : (lead width : ℕ) → HasWidth lead width → is_continuation lead ≡ false
is_continuation-lead lead width h = ground arith

expected-lead : (lead width : ℕ) → HasWidth lead width → expected lead ≡ width
unfolding expected
expected-lead lead width h = ground arith

abbrev pub concat : List (List ℕ) → List ℕ
concat [] = []
concat (c ∷ cs) = c ++ concat cs

reverse_aux-after : (xs back bs : List ℕ) → reverse_aux xs (back ++ bs) ≡ reverse_aux xs back ++ bs
reverse_aux-after [] back bs = refl
reverse_aux-after (x ∷ xs) back bs = reverse_aux-after xs (x ∷ back) bs

reverse_aux-append :
    (xs ys back : List ℕ) → reverse_aux (xs ++ ys) back ≡ reverse_aux ys (reverse_aux xs back)
reverse_aux-append [] ys back = refl
reverse_aux-append (x ∷ xs) ys back = reverse_aux-append xs ys (x ∷ back)

length-reverse_aux : (xs back : List ℕ) → length (reverse_aux xs back) ≡ length xs + length back
length-reverse_aux [] back = omega arith
length-reverse_aux (x ∷ xs) back = omega (arith, length-reverse_aux xs (x ∷ back))

All-reverse_aux :
    (xs back : List ℕ) → All IsTail xs → All IsTail back → All IsTail (reverse_aux xs back)
All-reverse_aux [] back h k = k
All-reverse_aux (x ∷ xs) back h k = All-reverse_aux xs (x ∷ back) (h.1) (h.0, k)

expected_le : (lead : ℕ) → expected lead ≤ 4
unfolding expected
expected_le lead = ground arith

walk_back-lead :
    (limit count lead : ℕ) (back rest : List ℕ)
    → length back ≤ limit
    → All IsTail back
    → is_continuation lead ≡ false
    → walk_back limit count (back ++ lead ∷ rest) ≡ (count + length back, lead ∷ rest)
unfolding walk_back
walk_back-lead zero count lead [] rest h t l = ground arith
walk_back-lead zero count lead (b ∷ bs) rest h t l = absurd (omega arith)
walk_back-lead (suc limit) count lead [] rest h t l = rw l (ground arith)
walk_back-lead (suc limit) count lead (b ∷ bs) rest h t l =
    rw (t.0)
      (ground (arith, walk_back-lead limit (count + 1) lead bs rest (omega (arith, h)) (t.1) l))

-- The walk ends at the last first byte, which has at most three bytes behind it.
complete-begun :
    (before : List ℕ) (lead : ℕ) (tail : List ℕ)
    → IsBegun lead tail
    → length tail ≤ 3
    → complete_utf8_prefix_length (before ++ lead ∷ tail)
      ≡ cut_at_lead (length before + suc (length tail)) (length tail, lead ∷ reverse before)
unfolding complete_utf8_prefix_length
complete-begun before lead tail h k =
    let counted : 0 + (length tail + 0) ≡ length tail = omega arith in
    rw
      (
        length-append before (lead ∷ tail),
        reverse_aux-append before (lead ∷ tail) [],
        reverse_aux-after tail [] (lead ∷ reverse before),
        walk_back-lead 3 0 lead (reverse tail) (reverse before)
            (omega (arith, k, length-reverse_aux tail [])) (All-reverse_aux tail [] (h.1) tt) (h.0),
        length-reverse_aux tail [],
      )
      (ap (λ n. cut_at_lead (length before + suc (length tail)) (n, lead ∷ reverse before)) counted)

complete-character :
    (before : List ℕ) (c : List ℕ)
    → IsCharacter c
    → complete_utf8_prefix_length (before ++ c) ≡ length (before ++ c)
unfolding cut_at_lead
complete-character before [] h = elim h [ ]
complete-character before (lead ∷ tail) h =
    let full : expected lead ≡ suc (length tail) = expected-lead lead (suc (length tail)) (h.1) in
    complete-begun before lead tail
      (is_continuation-lead lead (suc (length tail)) (h.1), IsTail-All tail (h.0))
      (omega (arith, full, expected_le lead))
    ∙ ground (arith, full, length-append before (lead ∷ tail))

complete-partial :
    (before : List ℕ) (lead : ℕ) (tail : List ℕ)
    → IsPartial (lead ∷ tail)
    → complete_utf8_prefix_length (before ++ lead ∷ tail) ≡ length before
unfolding cut_at_lead
complete-partial before lead tail h =
    let (t, (width, w, less)) = h in
    let more : expected lead ≡ width = expected-lead lead width w in
    complete-begun before lead tail (is_continuation-lead lead width w, IsTail-All tail t)
      (omega (arith, less, more, expected_le lead))
    ∙ ground (arith, less, more, length-reverse_aux before [])

IsCharacter-last :
    (before c : List ℕ) (cs : List (List ℕ))
    → IsCharacter c
    → All IsCharacter cs
    → complete_utf8_prefix_length (before ++ concat (c ∷ cs)) ≡ length (before ++ concat (c ∷ cs))
IsCharacter-last before c [] h k = rw (append-nil c) (complete-character before c h)
IsCharacter-last before c (d ∷ ds) h k =
    rw (← append_assoc before c (concat (d ∷ ds))) (IsCharacter-last (before ++ c) d ds (k.0) (k.1))

-- Of a text that is whole characters and the first bytes of one more, or nothing, behind them,
-- `complete_utf8_prefix_length` is the length of the whole characters.
pub complete_utf8_prefix_length-concat :
    (cs : List (List ℕ)) (part : List ℕ)
    → All IsCharacter cs
    → IsPartial part
    → complete_utf8_prefix_length (concat cs ++ part) ≡ length (concat cs)
unfolding complete_utf8_prefix_length
complete_utf8_prefix_length-concat cs (lead ∷ tail) h k = complete-partial (concat cs) lead tail k
complete_utf8_prefix_length-concat [] [] h k = refl
complete_utf8_prefix_length-concat (c ∷ cs) [] h k =
    rw (append-nil (concat (c ∷ cs))) (IsCharacter-last [] c cs (h.0) (h.1))
