-- ===== src/Network/Protocol.antt =====
-- What uIP asks of its main loop (its documentation of the main program loop and of uip_arp): which call
-- may follow which. The device may fail: `tapdev_init`, `read` and `write` each have their failing case.
use fos.Prelude.{true, ℕ, ◌<◌, ◌≡◌, ◌≢◌, ◌^◌, some}
use fos.Network.{Node, Uip, uip_conns, uip_ethtype_ip, uip_ethtype_arp}

-- Where a node may stand: a new one; one whose buffer is free; a frame that came in; a frame of IP whose
-- sender the ARP table knows; the result of a call that may have filled the buffer with a packet; a
-- frame that is complete.
pub record Protocol {Net Timer : Type 0} (u : Uip Net Timer) : Type 1 where
  pub IsNew : Node Net → Type 0
  pub IsFree : Node Net → Type 0
  pub HasFrame : Node Net → Type 0
  pub HasIp : Node Net → Type 0
  pub HasPacket : Node Net → Type 0
  pub IsComplete : Node Net → Type 0
  pub timer_set : (n : Node Net) (i : ℕ) → IsNew n → IsNew (u.timer_set i n).0
  pub open_tap : (n : Node Net) → IsNew n → (u.open_tap n).1 ≡ true → IsNew (u.open_tap n).0
  pub uip_init : (n : Node Net) → IsNew n → IsFree (u.uip_init n)
  pub uip_sethostaddr :
      (n : Node Net) (a b c d : ℕ) → IsFree n → IsFree (u.uip_sethostaddr a b c d n)
  pub uip_setdraddr : (n : Node Net) (a b c d : ℕ) → IsFree n → IsFree (u.uip_setdraddr a b c d n)
  pub uip_setnetmask : (n : Node Net) (a b c d : ℕ) → IsFree n → IsFree (u.uip_setnetmask a b c d n)
  pub httpd_init : (n : Node Net) → IsFree n → IsFree (u.httpd_init n)
  pub nothing :
      (n : Node Net)
      → IsFree n
      → (u.select n).1 ≡ 0
      → IsFree (record (u.select n).0 { uip_len = 0 })
  pub something :
      (n : Node Net)
      → IsFree n
      → (u.select n).1 ≢ 0
      → (n' : Node Net) (len : ℕ) → u.read (u.select n).0 ≡ (n', some len)
      → (len < 2 ^ 16)
        × (0 < len → HasFrame (record n' { uip_len = len }))
        × (len ≡ 0 → IsFree (record n' { uip_len = len }))
  pub uip_arp_ipin :
      (n : Node Net) → HasFrame n → u.eth_type n ≡ u.htons uip_ethtype_ip → HasIp (u.uip_arp_ipin n)
  pub uip_input : (n : Node Net) → HasIp n → HasPacket (u.uip_input n)
  pub uip_arp_arpin :
      (n : Node Net)
      → HasFrame n
      → u.eth_type n ≡ u.htons uip_ethtype_arp
      → (0 < (u.uip_arp_arpin n).uip_len → IsComplete (u.uip_arp_arpin n))
        × ((u.uip_arp_arpin n).uip_len ≡ 0 → IsFree (u.uip_arp_arpin n))
  pub dropped :
      (n : Node Net)
      → HasFrame n
      → u.eth_type n ≢ u.htons uip_ethtype_ip
      → u.eth_type n ≢ u.htons uip_ethtype_arp
      → IsFree n
  pub silent : (n : Node Net) → HasPacket n → n.uip_len ≡ 0 → IsFree n
  pub uip_arp_out : (n : Node Net) → HasPacket n → 0 < n.uip_len → IsComplete (u.uip_arp_out n)
  pub write : (n n' : Node Net) (ret : ℕ) → IsComplete n → u.write n ≡ (n', some ret) → IsFree n'
  pub uip_periodic :
      (n : Node Net) (i : ℕ) → IsFree n → i < uip_conns → HasPacket (u.uip_periodic i n)
  pub uip_arp_timer : (n : Node Net) → IsFree n → IsFree (u.uip_arp_timer n)
  pub timer_expired : (n : Node Net) (t : Timer) → IsFree n → IsFree (u.timer_expired t n).0
