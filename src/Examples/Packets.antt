-- ===== src/Examples/Packets.antt =====
-- The network task, tried on a small stack that answers every frame and has something to send on one
-- connection, over a list of frames that wait.
use fos.Prelude.{
  sym, ap, inr, ℕ, ◌+◌, ◌^◌, ◌<◌, ◌≡◌, ◌==◌, ltb, Bool, true, false, if◌then◌else◌, Option, none,
  some, List, [], ◌∷◌, refl, arith,
}
use fos.Kernel.{Kernel}
use fos.Network.{Node, Uip, Thread, Outcome, done, uip_round, uip_start}
use fos.Network.Protocol.{Protocol}
use fos.Network.Lives.{RoundEnds, begin, others, Lives-returns}
use fos.System.{do_sem_put}
use fos.Examples.State.{boot}
use fos.Examples.Runs.{layout, world, boot-Sound, after_put, put_once}

-- The phase is 0 when the buffer is free, 1 with a frame, 2 with a frame of IP, 3 with a packet and 4
-- with a complete frame.
record Wire : Type 0 where
  phase : ℕ
  arp : Bool
  frames : List Bool
  clock : ℕ

abbrev to_phase : ℕ → ℕ → Node Wire → Node Wire
to_phase phase len n = record n { net = record (n.net) { phase = phase }; uip_len = len }

abbrev pop : Node Wire → List Bool → Node Wire × Option ℕ
pop n [] = (n, none)
pop n (b ∷ bs) = (record n { net = record (n.net) { phase = 1; arp = b; frames = bs } }, some 60)

abbrev waits : List Bool → ℕ
waits [] = 0
waits (b ∷ bs) = 1

abbrev stack : Uip Wire ℕ
stack = record {
  open_tap = λ n. (n, true);
  select =
      λ n. (record n { net = record (n.net) { clock = n.net.clock + 300 } }, waits (n.net.frames));
  read = λ n. pop n (n.net.frames);
  write = λ n. (to_phase 0 (n.uip_len) n, if ltb 1500 (n.uip_len) then none else some (n.uip_len));
  eth_type = λ n. if n.net.arp then 0x0806 else 0x0800;
  htons = λ i. i;
  uip_init = λ n. n;
  uip_sethostaddr = λ a b c d n. n;
  uip_setdraddr = λ a b c d n. n;
  uip_setnetmask = λ a b c d n. n;
  httpd_init = λ n. n;
  uip_arp_ipin = λ n. to_phase 2 (n.uip_len) n;
  uip_input = λ n. to_phase 3 54 n;
  uip_arp_out = λ n. to_phase 4 (n.uip_len) n;
  uip_arp_arpin = λ n. to_phase 4 42 n;
  uip_periodic = λ i n. if i == 7 then to_phase 3 54 n else to_phase 0 0 n;
  uip_arp_timer = λ n. n;
  timer_set = λ i n. (n, n.net.clock + i);
  timer_reset = λ t. t + 500;
  timer_expired = λ t n. (n, ltb t (n.net.clock));
}

abbrev length_read : Node Wire × Option ℕ → ℕ
length_read (n, none) = 0
length_read (n, some len) = len

abbrev has_read : Node Wire × Option ℕ → Bool
has_read (n, none) = false
has_read (n, some len) = true

pop_lem :
    (n n' : Node Wire) (bs : List Bool) (len : ℕ)
    → pop n bs ≡ (n', some len)
    → (len < 2 ^ 16) × (0 < len → n'.net.phase ≡ 1) × (len ≡ 0 → n'.net.phase ≡ 0)
pop_lem n n' [] len e = absurd (ground (arith, ap has_read e))
pop_lem n n' (b ∷ bs) len e =
    let long : 60 ≡ len = ap length_read e in
    let came : 1 ≡ n'.net.phase = ap (λ (r : Node Wire × Option ℕ). r.0.net.phase) e in
    (omega (arith, long), λ pos. sym came, λ z. absurd (omega (arith, long, z)))

abbrev protocol : Protocol stack
protocol = record {
  IsNew = λ n. n.net.phase ≡ 0;
  IsFree = λ n. n.net.phase ≡ 0;
  HasFrame = λ n. n.net.phase ≡ 1;
  HasIp = λ n. n.net.phase ≡ 2;
  HasPacket = λ n. n.net.phase ≡ (if n.uip_len == 0 then 0 else 3);
  IsComplete = λ n. n.net.phase ≡ 4;
  timer_set = λ n i f. f;
  open_tap = λ n f e. f;
  uip_init = λ n f. f;
  uip_sethostaddr = λ n a b c d f. f;
  uip_setdraddr = λ n a b c d f. f;
  uip_setnetmask = λ n a b c d f. f;
  httpd_init = λ n f. f;
  nothing = λ n f z. f;
  something = λ n f ne n' len e. pop_lem _ n' (n.net.frames) len e;
  uip_arp_ipin = λ n f e. refl;
  uip_input = λ n f. refl;
  uip_arp_arpin = λ n f e. (λ pos. refl, λ z. absurd (omega (arith, z)));
  dropped = λ n f a b. absurd (ground (arith, a, b));
  silent = λ n f z. ground (arith, f, z);
  uip_arp_out = λ n f pos. refl;
  write = λ n n' ret f e. sym (ap (λ (r : Node Wire × Option ℕ). r.0.net.phase) e);
  uip_periodic = λ n i f lt. ground (arith, f);
  uip_arp_timer = λ n f. f;
  timer_expired = λ n t f. f;
}

-- Two frames wait, the second of ARP.
abbrev wire : Node Wire
wire = record {
  net = record { phase = 0; arp = false; frames = false ∷ true ∷ []; clock = 0 };
  uip_len = 0;
}

abbrev thread : Thread Wire ℕ
thread = record { node = wire; periodic_timer = 500; arp_timer = 10000 }

started : uip_start stack wire ≡ done thread
unfolding uip_start
started = refl

Lives-returns_example :
    (y : Outcome Wire (Thread Wire ℕ) × Kernel) × (uip_round stack world.port 400 thread after_put
      ≡ some y)
    × RoundEnds stack protocol world layout boot (do_sem_put 102 ∷ []) after_put y
Lives-returns_example =
    Lives-returns stack protocol world {tcb = 200} refl boot-Sound (λ e. absurd (ground (arith, e)))
      (others (begin started) (do_sem_put 102) (λ lists m. refl) put_once.2) refl
      (inr (_, 60, refl))
