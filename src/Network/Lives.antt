-- ===== src/Network/Lives.antt =====
-- The network task among the others: its rounds, with other calls and tick interrupts between them.
use fos.Prelude.{ℕ, ◌≡◌, ◌≢◌, ◌∙◌, ap, sym, refl, Option, some, List, [], ◌∷◌}
use mathlib.Core.Path.{subst}
use fos.LinkedList.{Addr}
use fos.LinkedList.Shape.{Lists}
use fos.Kernel.{Kernel, Port, ◌>>=◌}
use fos.Timer.{os_delay}
use fos.Sched.Models.{Models}
use fos.System.{Layout, World, Call, run, Allowed, do_os_delay, Runs, start, call}
use fos.System.Facts.{Sound}
use fos.System.Safety.{Runs-returns}
use mathlib.Core.Option.{some-injective}
use fos.Network.{Node, Uip, Thread, Outcome, exited, done, serve, uip_round, uip_start}
use fos.Network.Protocol.{Protocol}
use fos.Network.Rounds.{Gives, Broken, ReadSucceeds, serve-IsFree, uip_start-IsFree}

-- The program with the network task: kernel calls of other tasks and tick interrupts, the last first,
-- and between them the rounds of the task when it runs, none of which fails to read a frame or ends the
-- program. A tick that comes within a round stands
-- before it: the round touches nothing of the kernel until its os_delay.
pub data Lives {Net Timer : Type 0} (u : Uip Net Timer) (w : World) (o : Layout) (tcb : Addr)
    (n0 : Node Net) (k0 : Kernel) : List Call → Thread Net Timer → Kernel → Type 0 where
  begin : {t : Thread Net Timer} → uip_start u n0 ≡ done t → Lives u w o tcb n0 k0 [] t k0
  others :
      {cs : List Call} {t : Thread Net Timer} {k k' : Kernel}
      → Lives u w o tcb n0 k0 cs t k
      → (c : Call) → ((lists : Lists) → Models o.head k lists → Allowed o c k lists)
      → run w o.size c k ≡ some k'
      → Lives u w o tcb n0 k0 (c ∷ cs) t k'
  round :
      {cs : List Call} {t t' : Thread Net Timer} {k k' : Kernel}
      → Lives u w o tcb n0 k0 cs t k
      → k.new_task ≡ tcb
      → ReadSucceeds u t.node
      → uip_round u w.port o.size t k ≡ some (done t', k')
      → Lives u w o tcb n0 k0 (do_os_delay 5 ∷ cs) t' k'

run_lem :
    (w : World) (fuel : ℕ) (k : Kernel) → run w fuel (do_os_delay 5) k ≡ os_delay w.port fuel 5 k
unfolding run
run_lem w fuel k = refl

-- The round after `serve`.
abbrev delay_round :
    {Net Timer : Type 0}
    → Port
    → ℕ
    → Kernel
    → Outcome Net (Thread Net Timer)
    → Option (Outcome Net (Thread Net Timer) × Kernel)
delay_round port fuel k (exited n) = some (exited n, k)
delay_round port fuel k (done t) = os_delay port fuel 5 k >>= λ k. some (done t, k)

delay_lem :
    {Net Timer : Type 0} (port : Port) (fuel : ℕ) (k : Kernel) (x : Outcome Net (Thread Net Timer))
    → elim x [
      | exited n ↦ some (exited n, k)
      | done t ↦ os_delay port fuel 5 k >>= λ k. some (done t, k)
    ]
      ≡ delay_round port fuel k x
delay_lem port fuel k (exited n) = refl
delay_lem port fuel k (done t) = refl

round_lem :
    {Net Timer : Type 0} (u : Uip Net Timer) (port : Port) (fuel : ℕ) (t : Thread Net Timer)
    (k : Kernel)
    → uip_round u port fuel t k ≡ delay_round port fuel k (serve u t)
unfolding uip_round
round_lem u port fuel t k = delay_lem port fuel k (serve u t)

-- How a round from the kernel `k` after the calls `cs` ends: a write of a complete frame failed, and the
-- program ends at once; or the buffer is free, and the kernel went through one os_delay of 5.
module _ {Net Timer : Type 0} (u : Uip Net Timer) (p : Protocol u) (w : World) (o : Layout) where
  abbrev pub RoundEnds :
      Kernel → List Call → Kernel → Outcome Net (Thread Net Timer) × Kernel → Type 0
  RoundEnds k0 cs k (exited n, k') = Broken u p n × (k' ≡ k)
  RoundEnds k0 cs k (done t, k') = p.IsFree t.node × Runs w o k0 (do_os_delay 5 ∷ cs) k'

module _ {Net Timer : Type 0} (u : Uip Net Timer) (p : Protocol u) (w : World) {o : Layout} where
  module _ {k0 k : Kernel} {lists0 : Lists} {cs : List Call} (g : Sound o k0 lists0)
      (r : Runs w o k0 cs k) (ni : k.new_task ≢ o.idle) where
    delay_round-RoundEnds :
        (x : Outcome Net (Thread Net Timer))
        → Gives (Broken u p) (λ t. p.IsFree t.node) x
        → (y : Outcome Net (Thread Net Timer) × Kernel) × (delay_round w.port o.size k x ≡ some y)
          × RoundEnds u p w o k0 cs k y
    delay_round-RoundEnds (exited n) broken = ((exited n, k), refl, (broken, refl))
    delay_round-RoundEnds (done t) f =
        let (k', e) = Runs-returns w g r (do_os_delay 5) (λ lists m. ni) in
        (
          (done t, k'),
          ap (λ x. x >>= λ k. some (done t, k)) (sym (run_lem w o.size k) ∙ e),
          (f, call r (do_os_delay 5) (λ lists m. ni) e),
        )

    uip_round-RoundEnds :
        (t : Thread Net Timer)
        → p.IsFree t.node
        → ReadSucceeds u t.node
        → (y : Outcome Net (Thread Net Timer) × Kernel) × (uip_round u w.port o.size t k ≡ some y)
          × RoundEnds u p w o k0 cs k y
    uip_round-RoundEnds t f reads =
        let (y, e, ends) = delay_round-RoundEnds (serve u t) (serve-IsFree u p t f reads) in
        (y, round_lem u w.port o.size t k ∙ e, ends)

  module _ {tcb : Addr} {n0 : Node Net} {k0 : Kernel} {lists0 : Lists} (new : p.IsNew n0)
      (g : Sound o k0 lists0) (ni : tcb ≢ o.idle) where
    Lives-IsFree :
        {k : Kernel} {t : Thread Net Timer} {cs : List Call}
        → Lives u w o tcb n0 k0 cs t k
        → p.IsFree t.node × Runs w o k0 cs k
    Lives-IsFree (begin {t} e) = (uip_start-IsFree u p n0 t new e, start)
    Lives-IsFree (others l c allowed e) = let (f, r) = Lives-IsFree l in (f, call r c allowed e)
    Lives-IsFree (round {cs} {t} {k} l turn reads e) =
        let (f, r) = Lives-IsFree l in
        let (y, e1, ends) = uip_round-RoundEnds g r (λ i. ni (sym turn ∙ i)) t f reads in
        subst (RoundEnds u p w o k0 cs k) (some-injective _ _ (sym e1 ∙ e)) ends

    -- On a new node and a sound kernel, for a stack that keeps the protocol, after any calls of the
    -- kernel by others and any rounds that neither failed to read nor ended the program: when the task
    -- runs and its read does not fail, the round ends. Either writing a complete frame to the device
    -- failed, and the program ends there, with the kernel as it was; or the buffer is free again, as the
    -- protocol has it, and the round was for the kernel one os_delay of 5.
    pub Lives-returns :
        {k : Kernel} {t : Thread Net Timer} {cs : List Call}
        → Lives u w o tcb n0 k0 cs t k
        → k.new_task ≡ tcb
        → ReadSucceeds u t.node
        → (y : Outcome Net (Thread Net Timer) × Kernel) × (uip_round u w.port o.size t k ≡ some y)
          × RoundEnds u p w o k0 cs k y
    Lives-returns {t} l turn reads =
        let (f, r) = Lives-IsFree l in uip_round-RoundEnds g r (λ i. ni (sym turn ∙ i)) t f reads
