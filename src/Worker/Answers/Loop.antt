-- ===== src/Worker/Answers/Loop.antt =====
-- `run` of src/worker.cpp: every request is answered, and once.
use radixforge.Common.{
  ℕ, zero, suc, ◌+◌, ◌-◌, ◌<◌, ◌≡◌, refl, ap, List, [], ◌∷◌, ◌++◌, arith, ltb, length, All,
  Bool-cases, inl, inr,
}
use radixforge.Mapper.State.{Config}
use radixforge.Worker.State.{InferenceRequest, Bridge, enqueue, defer_to_front}
use radixforge.Worker.Prepare.{prepare_all}
use radixforge.Worker.Step.{Running}
use radixforge.Worker.Loop.{
  admit, take_in, count_generating, take_admitted, round, Action, arrive, turn, act, serve,
}
use radixforge.Worker.Quiet.Prepare.{prepare_all-Quiet}
use radixforge.Worker.Serving.{IsServing, total_load}
use radixforge.Worker.Serving.Step.{fused_step-Serves}
use radixforge.Worker.Serving.Loop.{
  idle, idle-IsServing, take_admitted-IsServing, count_generating-IsServing, round-IsServing,
  act-IsServing,
}
use radixforge.Worker.Serving.Drains.{turns, serve-drains}
use radixforge.Worker.Answers.{IsPatient, tally, tally-append, asks, asks_ctx, asks_seq, answers}
use radixforge.Worker.Answers.Retire.{IsLive}
use radixforge.Worker.Answers.Prepare.{prepare_all-answers}
use radixforge.Worker.Answers.Step.{account, fused_step-Accounts}

-- 1 for the arrival of the request `id`.
abbrev pub arrives : ℕ → Action → ℕ
arrives id (arrive req) = asks id req
arrives id turn = 0

-- The account with the requests that wait.
abbrev pub full_account : ℕ → Running → ℕ
full_account id r = account id r + tally (asks id) r.worker.queue

admit-asks :
    (id max_generating n : ℕ) (reqs : List InferenceRequest)
    → let (admitted, queue) = admit max_generating n reqs in
      tally (asks id) admitted + tally (asks id) queue ≡ tally (asks id) reqs
unfolding admit
admit-asks id max_generating n [] = omega arith
admit-asks id max_generating n (req ∷ reqs) =
    let ih = admit-asks id max_generating (n + 1) reqs in
    elim (Bool-cases (ltb n max_generating)) [
      | inl e ↦ rw e (omega (arith, ih))
      | inr e ↦ rw e (omega arith)
    ]

take_in-account :
    (b : Bridge) (id : ℕ) (r : Running) (reqs : List InferenceRequest)
    → IsPatient b id
    → full_account id (take_in b r reqs) ≡ full_account id r + tally (asks id) reqs
unfolding take_in defer_to_front
take_in-account b id r reqs patient =
    let (w, p) = prepare_all b r.worker reqs in
    let same = ap (λ queue. tally (asks id) queue) (prepare_all-Quiet b r.worker reqs).queue in
    omega (
      arith,
      same,
      prepare_all-answers b id patient reqs r.worker,
      tally-append (asks_ctx id) r.prefilling p.ctxs,
      tally-append (asks id) p.queued p.deferred,
      tally-append (asks id) (p.queued ++ p.deferred) w.queue,
    )

take_admitted-account :
    (b : Bridge) (id : ℕ) (r : Running)
    → IsPatient b id
    → full_account id (take_admitted b r) ≡ full_account id r
unfolding take_admitted
take_admitted-account b id r patient =
    let n = length r.active + length r.prefilling in
    let (admitted, queue) = admit (b.n_seq_max - 1) n r.worker.queue in
    omega (
      arith,
      take_in-account b id (record r { worker = record (r.worker) { queue = queue } }) admitted
          patient,
      admit-asks id (b.n_seq_max - 1) n r.worker.queue,
    )

-- What a history keeps.
record IsAnswering (b : Bridge) (k : Config) (id n : ℕ) (r : Running) : Type 0 where
  pub serving : IsServing b k r
  pub live : All IsLive r.active
  pub sum : full_account id r ≡ n

module _ (b : Bridge) (k : Config) (id : ℕ) (patient : IsPatient b id) where
  round-IsAnswering :
      (n : ℕ) (r : Running) → IsAnswering b k id n r → IsAnswering b k id n (round b r)
  unfolding round count_generating take_admitted take_in
  round-IsAnswering n r v =
      let taken = count_generating (take_admitted b r) in
      let serving = count_generating-IsServing b k _ (take_admitted-IsServing b k r v.serving) in
      let after = fused_step-Accounts b id patient taken v.live in
      let same = ap (λ queue. tally (asks id) queue) (fused_step-Serves b k taken serving).queue in
      record {
        serving = round-IsServing b k r v.serving;
        live = after.live;
        sum = omega (arith, v.sum, after.sum, same, take_admitted-account b id r patient);
      }

  act-IsAnswering :
      (n : ℕ) (r : Running) (a : Action)
      → IsAnswering b k id n r
      → IsAnswering b k id (n + arrives id a) (act b r a)
  unfolding act enqueue
  act-IsAnswering n r (arrive req) v = record {
    serving = act-IsServing b k r (arrive req) v.serving;
    live = v.live;
    sum = omega (arith, v.sum, tally-append (asks id) r.worker.queue (req ∷ []));
  }
  act-IsAnswering n r turn v =
      let next = round-IsAnswering n r v in
      record { serving = next.serving; live = next.live; sum = omega (arith, next.sum) }

  serve-IsAnswering :
      (n : ℕ) (r : Running) (actions : List Action)
      → IsAnswering b k id n r
      → IsAnswering b k id (n + tally (arrives id) actions) (serve b r actions)
  unfolding serve
  serve-IsAnswering n r [] v = record {
    serving = v.serving;
    live = v.live;
    sum = omega (arith, v.sum);
  }
  serve-IsAnswering n r (a ∷ actions) v =
      let rest =
        serve-IsAnswering (n + arrives id a) (act b r a) actions (act-IsAnswering n r a v) in
      record { serving = rest.serving; live = rest.live; sum = omega (arith, rest.sum) }

idle-IsAnswering : (b : Bridge) (k : Config) (id : ℕ) → IsAnswering b k id 0 (idle k)
idle-IsAnswering b k id = record { serving = idle-IsServing b k; live = tt; sum = refl }

-- For a request whose peer stays, after any history of a new worker: the last tokens and errors sent
-- to it, its sequences, its contexts and its places in the queue are together as many as its arrivals.
pub serve-accounts :
    (b : Bridge) (k : Config) (actions : List Action) (id : ℕ)
    → IsPatient b id
    → let r = serve b (idle k) actions in
      answers id r.worker
        + tally (asks_seq id) r.active
        + tally (asks_ctx id) r.prefilling
        + tally (asks id) r.worker.queue
      ≡ tally (arrives id) actions
serve-accounts b k actions id patient =
    let after = serve-IsAnswering b k id patient 0 (idle k) actions (idle-IsAnswering b k id) in
    omega (arith, after.sum)

tally-turns : (id n : ℕ) → tally (arrives id) (turns n) ≡ 0
tally-turns id zero = refl
tally-turns id (suc n) = omega (arith, tally-turns id n)

-- If the queue is empty after a history of a new worker and `n_batch` is positive, then after as many
-- rounds as are left to do a request whose peer stays has been sent one last token or error for
-- each of its arrivals, no more and no fewer.
pub serve-answers :
    (b : Bridge) (k : Config) (actions : List Action) (id : ℕ)
    → IsPatient b id
    → (serve b (idle k) actions).worker.queue ≡ []
    → 0 < b.n_batch
    → let r = serve b (idle k) actions in
      answers id (serve b r (turns (total_load r))).worker ≡ tally (arrives id) actions
serve-answers b k actions id patient e room =
    let r = serve b (idle k) actions in
    let n = total_load r in
    let before = serve-IsAnswering b k id patient 0 (idle k) actions (idle-IsAnswering b k id) in
    let after = serve-IsAnswering b k id patient _ r (turns n) before in
    let drained = serve-drains b k actions e room in
    omega (
      arith,
      after.sum,
      tally-turns id n,
      ap (tally (asks id)) (drained.0),
      ap (tally (asks_seq id)) (drained.1),
      ap (tally (asks_ctx id)) (drained.2),
    )
