-- ===== src/Worker/Answers.antt =====
-- How often src/worker.cpp ends the answer to a request whose peer stays: by a last token or an
-- error.
pub mod Retire
pub mod Prepare
pub mod Finish
pub mod Activate
pub mod Step
pub mod Loop
pub mod Errors
use radixforge.Common.{
  ℕ, ◌+◌, ◌≤◌, ◌<◌, ◌≡◌, refl, ap, subst, sym, Bool, true, false, List, [], ◌∷◌, ◌++◌, ◌==◌, ==_iff,
  arith, if◌then◌else◌, indicator, Bool-cases, inl, inr,
}
use radixforge.Worker.State.{
  InferenceRequest, PrefillCtx, ActiveSeq, ErrorMessage, Event, token, error, Bridge, Worker, emit,
  give_up, is_cancelled,
}
use radixforge.Worker.Retire.{
  report, give_up_ctx, fail_active, fail_prefill, fail_all_active, fail_all_prefill, pop_back,
}

-- The peer of the request never goes.
abbrev pub IsPatient : Bridge → ℕ → Type 0
IsPatient b id = (n : ℕ) → b.gone id n ≡ false

abbrev pub tally {ℓ} : {A : Type ℓ} → (A → ℕ) → List A → ℕ
tally f [] = 0
tally f (x ∷ xs) = f x + tally f xs

pub tally-append {ℓ} :
    {A : Type ℓ} (f : A → ℕ) (xs ys : List A) → tally f (xs ++ ys) ≡ tally f xs + tally f ys
tally-append f [] ys = omega arith
tally-append f (x ∷ xs) ys = omega (arith, tally-append f xs ys)

-- 1 for an event that ends the answer to the request `id`.
abbrev pub final : ℕ → Event → ℕ
final id (token i piece last) = if last then indicator id i else 0
final id (error i message status) = indicator id i

-- 1 for a request, a context and a sequence of the request `id`.
abbrev pub asks : ℕ → InferenceRequest → ℕ
asks id req = indicator id req.id

abbrev pub asks_ctx : ℕ → PrefillCtx → ℕ
asks_ctx id ctx = asks id ctx.req

abbrev pub asks_seq : ℕ → ActiveSeq → ℕ
asks_seq id seq = asks id seq.req

abbrev pub answers : ℕ → Worker → ℕ
answers id w = tally (final id) w.events

pub emit-answers :
    (id : ℕ) (e : Event) (w : Worker) → answers id (emit e w) ≡ answers id w + final id e
emit-answers id e w = omega (arith, tally-append (final id) w.events (e ∷ []))

pub give_up-answers :
    (id s node leaf : ℕ) (w : Worker) → answers id (give_up s node leaf w) ≡ answers id w
unfolding give_up
give_up-answers id s node leaf w = refl

pub give_up_ctx-answers :
    (id : ℕ) (ctx : PrefillCtx) (w : Worker) → answers id (give_up_ctx ctx w) ≡ answers id w
unfolding give_up_ctx give_up
give_up_ctx-answers id ctx w = refl

-- The outcome of a poll.
pub record Polls (id : ℕ) (w : Worker) (req : InferenceRequest) (w' : Worker)
    (req' : InferenceRequest) (gone : Bool) : Type 0 where
  pub before : answers id w' ≡ answers id w
  pub same : req'.id ≡ req.id
  pub own : asks id req' ≡ asks id req
  pub stays : gone ≡ true → asks id req ≡ 0

module _ (b : Bridge) (id : ℕ) (patient : IsPatient b id) where
  gone-asks : (req : InferenceRequest) (n : ℕ) → b.gone req.id n ≡ true → asks id req ≡ 0
  gone-asks req n e = elim (Bool-cases (id == req.id)) [
    | inl f ↦
        let g : id ≡ req.id = (==_iff id req.id).0 f in
        let h : b.gone req.id n ≡ false = subst (λ i. b.gone i n ≡ false) g (patient n) in cc
    | inr f ↦ ground arith
  ]

  pub is_cancelled-Polls :
      (req : InferenceRequest) (w : Worker)
      → let (w', req', gone) = is_cancelled b req w in Polls id w req w' req' gone
  unfolding is_cancelled
  is_cancelled-Polls req w =
      let events : (is_cancelled b req w).0.events ≡ w.events = ground arith in
      let same : (is_cancelled b req w).1.id ≡ req.id = ground arith in
      record {
        before = ap (λ events. tally (final id) events) events;
        same = same;
        own = ap (λ i. indicator id i) same;
        stays = λ e. gone-asks req w.polls (ground arith);
      }

  report-answers :
      (req : InferenceRequest) (message : ErrorMessage) (status : ℕ) (w : Worker)
      → answers id (report b req message status w) ≡ answers id w + asks id req
  unfolding report
  report-answers req0 message status w0 =
      let (w, req, gone) = is_cancelled b req0 w0 in
      let polled = is_cancelled-Polls req0 w0 in
      elim (Bool-cases (is_cancelled b req0 w0).2) [
        | inl e ↦ rw e (omega (arith, polled.before, polled.stays e))
        | inr e ↦ rw e (
            omega
              (arith, polled.before, emit-answers id (error req.id message status) w, polled.own))
      ]

  pub fail_active-answers :
      (message : ErrorMessage) (status : ℕ) (seq : ActiveSeq) (w : Worker)
      → answers id (fail_active b message status seq w) ≡ answers id w + asks_seq id seq
  unfolding fail_active give_up
  fail_active-answers message status seq w = report-answers seq.req message status w

  pub fail_prefill-answers :
      (message : ErrorMessage) (status : ℕ) (ctx : PrefillCtx) (w : Worker)
      → answers id (fail_prefill b message status ctx w) ≡ answers id w + asks_ctx id ctx
  unfolding fail_prefill give_up_ctx give_up
  fail_prefill-answers message status ctx w = report-answers ctx.req message status w

  pub fail_all_active-answers :
      (message : ErrorMessage) (status : ℕ) (seqs : List ActiveSeq) (w : Worker)
      → answers id (fail_all_active b message status seqs w)
        ≡ answers id w + tally (asks_seq id) seqs
  unfolding fail_all_active
  fail_all_active-answers message status [] w = omega arith
  fail_all_active-answers message status (seq ∷ seqs) w = omega (
    arith,
    fail_active-answers message status seq w,
    fail_all_active-answers message status seqs (fail_active b message status seq w),
  )

  pub fail_all_prefill-answers :
      (message : ErrorMessage) (status : ℕ) (ctxs : List PrefillCtx) (w : Worker)
      → answers id (fail_all_prefill b message status ctxs w)
        ≡ answers id w + tally (asks_ctx id) ctxs
  unfolding fail_all_prefill
  fail_all_prefill-answers message status [] w = omega arith
  fail_all_prefill-answers message status (ctx ∷ ctxs) w = omega (
    arith,
    fail_prefill-answers message status ctx w,
    fail_all_prefill-answers message status ctxs (fail_prefill b message status ctx w),
  )

pub tally-pop_back {ℓ} :
    {A : Type ℓ} (f : A → ℕ) (x : A) (xs : List A)
    → let (rest, last) = pop_back x xs in tally f rest + f last ≡ f x + tally f xs
unfolding pop_back
tally-pop_back f x [] = omega arith
tally-pop_back f x (y ∷ ys) = omega (arith, tally-pop_back f y ys)
