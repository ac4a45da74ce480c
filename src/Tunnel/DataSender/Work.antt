-- ===== src/Tunnel/DataSender/Work.antt =====
-- The work of the sender comes to an end.
use sangtachi.Prelude.{
  ℕ, zero, suc, ◌+◌, ◌-◌, ◌<◌, ◌≤◌, ◌≡◌, refl, sym, subst, inl, inr, Option, none, some, List, [],
  ◌∷◌, ltb, ◌==◌, if◌then◌else◌, length, arith, Bool-cases,
}
use sangtachi.Prelude.Bits.{u32}
use sangtachi.Tunnel.Table.{Tunnel, TxOutcome, send_data}
use sangtachi.Tunnel.DataSender.{
  SendArgs, Job, DataSender, drain, finished, after_answer, job_packet, pump_job, pump, busy,
  has_job, begin_job, on_args, on_command, send_destination, enqueue, new_data_sender,
  parse_send_args,
}
use sangtachi.Tunnel.DataSender.Arguments.{IsBounded, parse_send_args-IsBounded}

-- The job has packets left.
abbrev pub IsValidJob : Option Job → Type 0
IsValidJob none = Unit
IsValidJob (some j) = (j.next < j.args.count) × (j.args.count ≤ 1000)

abbrev pub packets_left : Option Job → ℕ
packets_left none = 0
packets_left (some j) = j.args.count - j.next

-- The packets that wait and those that the job has left.
abbrev pub work : DataSender → ℕ
work s = length s.queued + packets_left s.job

drain_lem :
    (budget : ℕ) (queued : List (List ℕ)) (t : Tunnel)
    → ((drain budget queued t).0 ≡ budget - length queued)
      × (length (drain budget queued t).1 ≡ length queued - budget)
unfolding drain
drain_lem zero queued t = (omega arith, omega arith)
drain_lem (suc budget) [] t = (omega arith, omega arith)
drain_lem (suc budget) (inner ∷ queued) t =
    let rest = drain_lem budget queued (send_data inner t).1 in
    (omega (arith, rest), omega (arith, rest))

finished_lem :
    (j : Job)
    → j.next ≤ j.args.count
    → j.args.count ≤ 1000
    → IsValidJob (finished j) × (packets_left (finished j) ≤ j.args.count - j.next)
finished_lem j h k = elim (Bool-cases (j.next == j.args.count)) [
  | inl e ↦ rw e (tt, omega arith)
  | inr e ↦ rw e ((ground (arith, e), k), omega arith)
]

after_answer_lem :
    (j : Job) (o : TxOutcome)
    → IsValidJob (some j)
    → IsValidJob (after_answer j o)
      × (packets_left (after_answer j o) ≤ j.args.count - (j.next + 1))
unfolding after_answer
after_answer_lem j TxOutcome.send_failed h = (tt, omega arith)
after_answer_lem j TxOutcome.sent h =
    let e : u32 (j.next + 1) ≡ j.next + 1 = omega (arith, h) in
    let r =
      finished_lem (record j { next = u32 (j.next + 1); sent = u32 (j.sent + 1) })
        (omega (arith, h, e)) h.1 in
    (r.0, omega (arith, r.1, e))
after_answer_lem j TxOutcome.dropped h =
    let e : u32 (j.next + 1) ≡ j.next + 1 = omega (arith, h) in
    let r = finished_lem (record j { next = u32 (j.next + 1) }) (omega (arith, h, e)) h.1 in
    (r.0, omega (arith, r.1, e))

pump_job_lem :
    (clock : ℕ → ℕ) (budget : ℕ) (job : Option Job) (t : Tunnel)
    → IsValidJob job
    → IsValidJob (pump_job clock budget job t).0
      × (packets_left (pump_job clock budget job t).0 ≤ packets_left job - budget)
unfolding pump_job
pump_job_lem clock zero job t h = (h, omega arith)
pump_job_lem clock (suc budget) none t h = (tt, omega arith)
pump_job_lem clock (suc budget) (some j) t h =
    let r = send_data (job_packet clock j t) t in
    let a = after_answer_lem j r.0 h in
    let rest = pump_job_lem clock budget (after_answer j r.0) r.1 a.0 in
    (rest.0, omega (arith, rest.1, a.1))

begin_job-IsValidJob :
    (args : SendArgs) (o : Option ℕ) (s : DataSender)
    → IsBounded (some args)
    → IsValidJob s.job
    → IsValidJob (begin_job args o s).job
begin_job-IsValidJob args none s b h = h
begin_job-IsValidJob args (some to) s b h = (omega (arith, b), b.1)

on_args-IsValidJob :
    (t : Tunnel) (o : Option SendArgs) (s : DataSender)
    → IsBounded o
    → IsValidJob s.job
    → IsValidJob (on_args t o s).job
on_args-IsValidJob t none s b h = h
on_args-IsValidJob t (some args) s b h =
    let begun = begin_job-IsValidJob args (send_destination t args.to) s b h in
    elim (Bool-cases (has_job s)) [
      | inl e ↦
          subst
            (λ c. IsValidJob (if c then s else begin_job args (send_destination t args.to) s).job)
            (sym e) h
      | inr e ↦
          subst
            (λ c. IsValidJob (if c then s else begin_job args (send_destination t args.to) s).job)
            (sym e) begun
    ]

on_command-IsValidJob :
    (rest : List ℕ) (t : Tunnel) (s : DataSender)
    → IsValidJob s.job
    → IsValidJob (on_command rest t s).job
unfolding on_command
on_command-IsValidJob rest t s h =
    on_args-IsValidJob t (parse_send_args rest) s (parse_send_args-IsBounded rest) h

pump_job_valid :
    (clock : ℕ → ℕ) (budget : ℕ) (s : DataSender) (t : Tunnel)
    → IsValidJob s.job
    → IsValidJob (pump clock budget s t).0.job × (work (pump clock budget s t).0 ≤ work s - budget)
unfolding pump
pump_job_valid clock budget s t h =
    let d = drain budget s.queued t in
    let counts = drain_lem budget s.queued t in
    let r = pump_job_lem clock d.0 s.job d.2 h in (r.0, omega (arith, r.1, counts))

-- What can become of a sender: commands, packets that wait and rounds of `pump`, with whatever tunnel.
pub data IsReachable : DataSender → Type 0 where
  created : IsReachable new_data_sender
  commanded :
      {s : DataSender} (rest : List ℕ) (t : Tunnel)
      → IsReachable s
      → IsReachable (on_command rest t s)
  queued : {s : DataSender} (inner : List ℕ) → IsReachable s → IsReachable (enqueue inner s)
  pumped :
      {s : DataSender} (clock : ℕ → ℕ) (budget : ℕ) (t : Tunnel)
      → IsReachable s
      → IsReachable (pump clock budget s t).0

reachable-IsValidJob : {s : DataSender} → IsReachable s → IsValidJob s.job
reachable-IsValidJob created = tt
reachable-IsValidJob (commanded {s} rest t r) =
    on_command-IsValidJob rest t s (reachable-IsValidJob r)
reachable-IsValidJob (queued inner r) = reachable-IsValidJob r
reachable-IsValidJob (pumped {s} clock budget t r) =
    (pump_job_valid clock budget s t (reachable-IsValidJob r)).0

busy-work :
    (job : Option Job) (waiting : List (List ℕ))
    → IsValidJob job
    → busy (record { job = job; queued = waiting }) ≡ ltb 0 (length waiting + packets_left job)
unfolding busy
busy-work none [] h = refl
busy-work none (inner ∷ waiting) h = ground arith
busy-work (some j) waiting h = ground (arith, h)

-- A round of `pump` does as much work as its budget allows, whatever the tunnel answers, in every
-- state that a sender can come to by commands, packets that wait and rounds: as many packets less are
-- left, or none at all; and it is busy exactly while packets are left. So it is busy for finitely many
-- rounds.
pub pump-work :
    (clock : ℕ → ℕ) (budget : ℕ) (s : DataSender) (t : Tunnel)
    → IsReachable s
    → (work (pump clock budget s t).0 ≤ work s - budget)
      × (busy (pump clock budget s t).0 ≡ ltb 0 (work (pump clock budget s t).0))
pump-work clock budget s t r =
    let step = pump_job_valid clock budget s t (reachable-IsValidJob r) in
    let after = (pump clock budget s t).0 in (step.1, busy-work after.job after.queued step.0)
