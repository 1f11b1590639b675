-- ===== src/Worker/Invariant/Advance.antt =====
-- The sequences that generate, behind a decode of src/worker.cpp: each has one token less to go or
-- leaves.
use radixforge.Common.{
  ℕ, ◌+◌, ◌-◌, ◌≤◌, ◌<◌, ◌≡◌, refl, Bool, true, false, List, [], ◌∷◌, ◌++◌, arith, ◌==◌,
  if◌then◌else◌, length, length-append, All, Bool-cases, inl, inr,
}
use radixforge.Mapper.Sequence.{set_sequence_cell_count}
use radixforge.Worker.State.{ActiveSeq, Bridge, Worker, set_mapper, is_cancelled}
use radixforge.Worker.Retire.{retire_one, retire_completed}
use radixforge.Worker.Finish.{sample, send, settle, predicted, advance_with, advance, advance_all}
use radixforge.Worker.Invariant.{IsActive, load}

-- Unless it is done, the sequence is as it should be, with less to go.
abbrev pub Moved : Bridge → ActiveSeq → ActiveSeq → Type 0
Moved b seq seq' = seq'.done ≡ false → IsActive b seq' × (seq'.remaining < seq.remaining)

abbrev pub AllMoved : Bridge → List ActiveSeq → List ActiveSeq → Type 0
AllMoved b [] [] = Unit
AllMoved b [] (seq' ∷ seqs') = ⊥
AllMoved b (seq ∷ seqs) [] = ⊥
AllMoved b (seq ∷ seqs) (seq' ∷ seqs') = Moved b seq seq' × AllMoved b seqs seqs'

-- `seq` has been counted down from `old`, with the decoded token among its cached ones.
settle-Moved :
    (b : Bridge) (new_tok : ℕ) (old seq : ActiveSeq) (w : Worker)
    → seq.remaining < old.remaining
    → seq.pos + seq.remaining + 6 ≤ b.n_ctx
    → length seq.cached_tokens ≡ seq.pos + 1
    → Moved b old (settle b new_tok seq w).1
unfolding settle
settle-Moved b new_tok old seq w less fits cached = elim (Bool-cases (seq.remaining == 0)) [
  | inl e ↦ rw e (λ f. cc)
  | inr e ↦ elim (Bool-cases (is_cancelled b seq.req w).2) [
    | inl g ↦ rw (e, g) (λ f. cc)
    | inr g ↦ rw (e, g) (λ f. ((ground arith, omega arith, omega arith), less))
  ]
]

advance_with-Moved :
    (b : Bridge) (new_tok : ℕ) (old seq : ActiveSeq) (w : Worker)
    → 0 < old.remaining
    → seq.remaining ≡ old.remaining
    → seq.pos + seq.remaining + 5 ≤ b.n_ctx
    → length seq.cached_tokens ≡ seq.pos + 1
    → Moved b old (advance_with b new_tok seq w).1
unfolding advance_with
advance_with-Moved b new_tok old seq0 w some_left same fits cached =
    let seq = record seq0 { remaining = seq0.remaining - 1; stats = predicted seq0.stats } in
    let (w', req) = send b seq.req (b.token_to_piece new_tok) (seq.remaining == 0) w in
    elim (Bool-cases (b.is_eog new_tok)) [
      | inl e ↦ rw e (λ f. cc)
      | inr e ↦ rw e (
          settle-Moved b new_tok old (record seq { req = req }) w' (omega arith) (omega arith)
            cached)
    ]

advance-Moved :
    (b : Bridge) (seq : ActiveSeq) (w : Worker) → IsActive b seq → Moved b seq (advance b seq w).1
unfolding advance
advance-Moved b seq w h =
    let m = set_sequence_cell_count seq.seq_id (seq.pos + 1) w.mapper in
    let (w', new_tok) = sample b (set_mapper m w) in
    advance_with-Moved b new_tok seq
      (record seq { cached_tokens = seq.cached_tokens ++ seq.next_token ∷ [] }) w' (h.0) refl (h.1)
      (omega (arith, h.2, length-append seq.cached_tokens (seq.next_token ∷ [])))

pub advance_all-AllMoved :
    (b : Bridge) (w : Worker) (seqs : List ActiveSeq)
    → All (IsActive b) seqs
    → AllMoved b seqs (advance_all b w seqs).1
unfolding advance_all
advance_all-AllMoved b w [] h = tt
advance_all-AllMoved b w (seq ∷ seqs) h =
    (advance-Moved b seq w (h.0), advance_all-AllMoved b (advance b seq w).0 seqs (h.1))

-- What is left of sequences that have moved.
pub record Advances (b : Bridge) (seqs left : List ActiveSeq) : Type 0 where
  pub inv : All (IsActive b) left
  pub size : length left ≤ length seqs
  pub loads : load left + length seqs ≤ load seqs

pub retire_completed-Advances :
    (b : Bridge) (w : Worker) (seqs seqs' : List ActiveSeq)
    → AllMoved b seqs seqs'
    → Advances b seqs (retire_completed b w seqs').1
unfolding retire_completed
retire_completed-Advances b w [] [] h = record { inv = tt; size = omega arith; loads = omega arith }
retire_completed-Advances b w [] (seq' ∷ seqs') h = absurd h
retire_completed-Advances b w (seq ∷ seqs) [] h = absurd h
retire_completed-Advances b w (seq ∷ seqs) (seq' ∷ seqs') h =
    let ih =
      retire_completed-Advances b (if seq'.done then retire_one b seq' w else w) seqs seqs' (h.1) in
    kept seq'.done refl ih
  where
    kept :
        (d : Bool) {rest : List ActiveSeq}
        → seq'.done ≡ d
        → Advances b seqs rest
        → Advances b (seq ∷ seqs) (if d then rest else seq' ∷ rest)
    kept true e ih = record {
      inv = ih.inv;
      size = omega (arith, ih.size);
      loads = omega (arith, ih.loads);
    }
    kept false e ih =
        let (i, less) = (h.0) e in
        record {
          inv = (i, ih.inv);
          size = omega (arith, ih.size);
          loads = omega (arith, ih.loads, less);
        }
