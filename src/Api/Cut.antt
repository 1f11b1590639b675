-- ===== src/Api/Cut.antt =====
-- A text of whole UTF-8 characters, cut anywhere, as the tokens of src/http_server.cpp cut it.
use radixforge.Common.{
  ℕ, suc, ◌≡◌, ◌⊎◌, inl, inr, refl, sym, ap, subst, ◌∙◌, List, [], ◌∷◌, ◌++◌, arith, length,
  length-append, append_assoc, All, All-left,
}
use radixforge.Api.Chunks.{IsTrail, IsCharacter, IsPartial, concat}

-- A text cut at the last character that it has whole, with `rest` still to come.
pub record Cut (content rest : List ℕ) : Type 0 where
  pub whole : List (List ℕ)
  pub part : List ℕ
  pub later : List (List ℕ)
  pub characters : All IsCharacter whole
  pub partial : IsPartial part
  pub later_characters : All IsCharacter later
  pub cut : content ≡ concat whole ++ part
  pub left : part ++ rest ≡ concat later

-- Two ways to split a text: the first part has the other's, or is shorter.
meet :
    (c content rest more : List ℕ)
    → content ++ rest ≡ c ++ more
    → ((d : List ℕ) × (content ≡ c ++ d) × (d ++ rest ≡ more))
      ⊎ ((x : ℕ) × (xs : List ℕ) × (c ≡ content ++ x ∷ xs))
meet [] content rest more e = inl (content, refl, e)
meet (x ∷ c) [] rest more e = inr (x, c, refl)
meet (x ∷ c) (y ∷ content) rest more e =
    let same : y ≡ x = cc in
    elim (meet c content rest more cc) [
      | inl (d, p, q) ↦ inl (d, (cc), q)
      | inr (z, zs, p) ↦ inr (z, zs, cc)
    ]

begun-IsPartial :
    (content : List ℕ) (x : ℕ) (xs : List ℕ) → IsCharacter (content ++ x ∷ xs) → IsPartial content
begun-IsPartial [] x xs h = tt
begun-IsPartial (lead ∷ tail) x xs h = (
  All-left IsTrail tail (x ∷ xs) (h.0),
  (suc (length (tail ++ x ∷ xs)), h.1, omega (arith, length-append tail (x ∷ xs))),
)

pub concat-Cut :
    (cs : List (List ℕ)) (content rest : List ℕ)
    → All IsCharacter cs
    → content ++ rest ≡ concat cs
    → Cut content rest
concat-Cut [] [] rest h e = record {
  whole = [];
  part = [];
  later = [];
  characters = tt;
  partial = tt;
  later_characters = tt;
  cut = refl;
  left = e;
}
concat-Cut [] (x ∷ content) rest h e = cc
concat-Cut (c ∷ cs) content rest h e = elim (meet c content rest (concat cs) e) [
  | inl (d, p, q) ↦
      let behind = concat-Cut cs d rest (h.1) q in
      record {
        whole = c ∷ behind.whole;
        part = behind.part;
        later = behind.later;
        characters = (h.0, behind.characters);
        partial = behind.partial;
        later_characters = behind.later_characters;
        cut =
            p
            ∙ ap (λ xs. c ++ xs) behind.cut
            ∙ sym (append_assoc c (concat behind.whole) behind.part);
        left = behind.left;
      }
  | inr (x, xs, p) ↦ record {
    whole = [];
    part = content;
    later = c ∷ cs;
    characters = tt;
    partial = begun-IsPartial content x xs (subst IsCharacter p (h.0));
    later_characters = h;
    cut = refl;
    left = e;
  }
]
