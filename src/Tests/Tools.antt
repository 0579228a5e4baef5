-- ===== src/Tests/Tools.antt =====
-- The user's tools at concrete inputs.
use aoe.Prelude.{
  ℕ, inl, false, ◌+◌, ◌*◌, ◌^◌, ◌≡◌, refl, true, none, some, List, [], ◌∷◌, arith, replicate, All,
}
use aoe.Types.{AoeHdr, zero_hdr}
use aoe.Net.{rcv_hdr, ignored}
use aoe.Tools.Socket.{Packet, got, timed_out, Socket}
use aoe.Tools.Ping.{Item, ident, start_tag, smart_cmd, init_opts, options, defaults}
use aoe.Tools.Ping.Run.{Surroundings, aoeping}
use aoe.Tools.Ping.Tags.{sent_by, aoeping_lem}
use aoe.Tools.Smart.{Smartcmd, put_data, write_log}
use aoe.Tools.Config.{config_query, aoe_tag}
use aoe.Tools.San.{discover, Lun, San, jinput, probe}
use aoe.Net.Received.{command, answer}
use aoe.Tools.Apart.{tools_apart}
use aoe.Tools.San.Check.{Turn, jcheck}
use aoe.Tools.San.Learned.{IsLearned, jcheck-IsLearned}
use aoe.Tools.San.Probes.{IsGreater, answer_to, jinput-probe}
use aoe.Tools.Report.{Eth}

-- What e1.2 answers to the first query of aoeping.
abbrev a_reply : Packet
a_reply = record {
  kind = 0x88a2;
  hdr = record zero_hdr { src = 77; verfl = 0x18; major = 1; minor = 2; cmd = 1; tag = 2 ^ 31 + 7 };
  body = replicate 40 0;
}

abbrev a_socket : Socket
a_socket = record { writes = []; reads = timed_out ∷ []; sent = [] }

abbrev a_user : Surroundings
a_user = record { strtol = λ t. 3; stdin = none; mac = 99 }

abbrev a_line : List Item
a_line = ident ∷ start_tag 7 ∷ smart_cmd write_log ∷ []

aoeping_lem_example :
    All
      (λ p. (h : AoeHdr) → h.tag ≡ p.hdr.tag → rcv_hdr h ≡ ignored)
      (sent_by (aoeping a_user a_line (some (1, 2)) (record a_socket { reads = got a_reply ∷ [] })))
unfolding init_opts options
aoeping_lem_example =
    aoeping_lem a_user a_line (some (1, 2)) (record a_socket { reads = got a_reply ∷ [] })
      (record defaults { shelf = 1; slot = 2; tag = 7; ata_ident = true; smart = some write_log })
      refl refl (omega arith)

abbrev a_write : Smartcmd
a_write = record { name = write_log; cmd = 0xd6; transfer = put_data }

abbrev a_lun : Lun
a_lun = record {
  probed = true;
  ea = 77;
  major = 1;
  minor = 2;
  nsect = 8;
  maxsect = 0;
  id = 2 ^ 15 + 3;
}

abbrev a_san : San
a_san = record { luns = a_lun ∷ []; id = 4; targlist = record { major = 1; minor = 2 } ∷ [] }

jinput-probe_example :
    (m : ℕ) × IsGreater 0 5 m
    × (jinput 99 9000 a_san (answer_to (probe 99 a_lun (5 * 512)).hdr) 0
        ≡ (true, [], record a_san { luns = record a_lun { maxsect = m } ∷ [] }))
jinput-probe_example =
    jinput-probe 99 9000 a_san a_lun 0 5 0 (tt, tt) refl (omega arith) (omega arith) (omega arith)
      (omega arith)

-- An interface whose MTU has room for two sectors and 32 bytes.
abbrev an_eth : Eth
an_eth = record { luns = []; name = 101 ∷ 116 ∷ 104 ∷ 48 ∷ []; mtu = 1056; up = true }

-- A config response of e1.2, then silence.
abbrev some_turns : List Turn
some_turns =
    record { nt = 100; packet = some (a_reply.hdr, 8); later = 101 }
    ∷ record { nt = 102; packet = none; later = 102 }
    ∷ record { nt = 110; packet = none; later = 110 }
    ∷ []

jcheck-IsLearned_example : IsLearned (jcheck 5 99 9000 100 some_turns a_san).1
jcheck-IsLearned_example =
    jcheck-IsLearned 5 99 9000 100 some_turns a_san ((tt, tt), (tt, tt), (inl refl, tt))

tools_apart_example :
    (rcv_hdr (answer_to (discover 99).hdr) ≡ ignored)
    × (rcv_hdr (answer_to (probe 99 a_lun (5 * 512)).hdr) ≡ ignored)
    × (rcv_hdr (answer_to (config_query 99 0 1 2 (aoe_tag 123456) [] []).hdr) ≡ ignored)
    × (jinput 99 9000 a_san (answer (command 2 25 1 2 1 2)) 0 ≡ (false, [], a_san))
tools_apart_example =
    tools_apart 99 9000 a_san a_lun 5 0 (omega arith) (omega arith) (omega arith) 2 25 1 2 1 2
      123456 0 [] []
