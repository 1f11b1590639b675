-- ===== src/Api/Utf8.antt =====
-- `complete_utf8_prefix_length` of src/openai_api.cpp.
--
-- The code walks back from the end of the text, so the model takes the bytes last first.
use radixforge.Common.{
  ℕ, zero, suc, ◌+◌, ◌-◌, ◌/◌, Bool, List, [], ◌∷◌, ◌==◌, ◌&&◌, leb, ltb, if◌then◌else◌, length,
}
use mathlib.Core.List.{reverse}

-- `(c & 0xC0) == 0x80` for a byte `c`.
abbrev pub is_continuation : ℕ → Bool
is_continuation c = c / 64 == 2

-- How many bytes a character has that starts with `lead`; 1 for a byte that starts none of more.
unfoldable pub expected : ℕ → ℕ
expected lead =
    if leb 240 lead && leb lead 244
    then 4
    else if leb 224 lead && leb lead 239
    then 3
    else if leb 194 lead && leb lead 223
    then 2
    else 1

-- The walk over continuation bytes: `continuation_count`, at most `limit` more than `count`, and the
-- bytes before `suffix_start`.
unfoldable pub walk_back : ℕ → ℕ → List ℕ → ℕ × List ℕ
walk_back zero count cs = (count, cs)
walk_back (suc limit) count [] = (count, [])
walk_back (suc limit) count (c ∷ cs) =
    let further = walk_back limit (count + 1) cs in
    if is_continuation c then further else (count, c ∷ cs)

-- The length to send of a text of `size` bytes, from the walk's result.
unfoldable pub cut_at_lead : ℕ → ℕ × List ℕ → ℕ
unfolding expected
cut_at_lead size (continuation_count, []) = size
cut_at_lead size (continuation_count, lead ∷ before) =
    if continuation_count == 0
    then if ltb 1 (expected lead) then size - 1 else size
    else if ltb (continuation_count + 1) (expected lead)
    then length before
    else size

unfoldable pub complete_utf8_prefix_length : List ℕ → ℕ
unfolding walk_back cut_at_lead
complete_utf8_prefix_length text = cut_at_lead (length text) (walk_back 3 0 (reverse text))
