-- ===== src/Tests/Module.antt =====
-- The network side, the start of the module and the files that are written at concrete states.
use aoe.Prelude.{ℕ, ◌≡◌, ◌↔◌, ◌⊎◌, refl, true, false, some, List, [], ◌∷◌, arith}
use aoe.Tests.{an_env, a_response}
use aoe.Control.{Host, Control, aoechr_write}
use aoe.Control.Refused.{Answers, aoechr_write_lem}
use aoe.Init.{Boot, aoe_init}
use aoe.Init.Unwound.{Unwound, aoe_init_lem}
use aoe.Net.{is_aoe_netif, Arrival, aoenet_rcv, ignored, to_ata_rsp}
use aoe.Net.Words.{Listed, words}
use aoe.Net.Listed.{is_aoe_netif_lem}
use aoe.Net.Received.{command, answer, aoenet_rcv_lem}
use aoe.Tests.Devices.{a_driver}

-- "eth2 eth4", and "eth4".
abbrev an_iflist : List ℕ
an_iflist = 101 ∷ 116 ∷ 104 ∷ 50 ∷ 32 ∷ 101 ∷ 116 ∷ 104 ∷ 52 ∷ []

abbrev eth4 : List ℕ
eth4 = 101 ∷ 116 ∷ 104 ∷ 52 ∷ []

is_aoe_netif_lem_example :
    (is_aoe_netif an_iflist eth4 ≡ true) ↔ ((an_iflist ≡ []) ⊎ Listed eth4 (words an_iflist))
is_aoe_netif_lem_example =
    is_aoe_netif_lem an_iflist eth4 (omega arith, (omega arith, (omega arith, (omega arith, tt))))

abbrev an_arrival : Arrival
an_arrival = record {
  init_net = true;
  unshared = true;
  pulled = true;
  len = 60;
  name = eth4;
  hdr = a_response.hdr;
}

aoenet_rcv_lem_example :
    let h = command 2 25 1 2 1 2 in
    (aoenet_rcv an_iflist (record an_arrival { hdr = h }) ≡ ignored)
    × (aoenet_rcv an_iflist (record an_arrival { hdr = answer h }) ≡ to_ata_rsp)
unfolding is_aoe_netif
aoenet_rcv_lem_example = aoenet_rcv_lem an_iflist an_arrival 2 25 1 2 1 2 (refl, refl, refl, refl)

-- The kernel refuses the last thread.
abbrev a_boot : Boot
a_boot = record {
  register_chrdev = true;
  class_create = true;
  kmem_cache_create = true;
  debugfs_create_dir = false;
  tx_thread = true;
  get_zeroed_page = true;
  iocq_alloc = true;
  kts_alloc = true;
  ktiowq_alloc = true;
  io_thread = false;
  register_blkdev = true;
}

aoe_init_lem_example : Unwound true (aoe_init false a_boot)
aoe_init_lem_example = aoe_init_lem false a_boot

-- The text that the user writes cannot be read.
abbrev a_host : Host
a_host = record {
  netdevs = 1 ∷ 2 ∷ [];
  if_name = λ ifp. eth4;
  readable = false;
  torn = λ text. 101 ∷ 0 ∷ [];
  scan = λ text. some (1, 3);
  sleeps = true ∷ [];
}

abbrev a_control : Control
a_control = record { driver = a_driver; aoe_iflist = an_iflist }

aoechr_write_lem_example :
    Answers a_host 4 eth4 a_control (aoechr_write an_env a_host 4 eth4 a_control)
aoechr_write_lem_example = aoechr_write_lem an_env a_host 4 eth4 a_control
