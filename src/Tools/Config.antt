-- ===== src/Tools/Config.antt =====
-- aoecfg.c: `resp`, `aoe_tag`, `cfgquery`, `xlatecmd`, and `main` behind `getopt`, `dial` and
-- `getea`. `readto` is a `read` whose wait `select` may end.
pub mod Words
pub mod Args
use aoe.Prelude.{
  ℕ, zero, suc, ◌+◌, ◌*◌, ◌/◌, ◌%◌, ◌^◌, Bool, true, false, Option, none, some, List, [], ◌∷◌, ◌++◌,
  ltb, ◌==◌, ◌&&◌, ◌||◌, not, if◌then◌else◌, length,
}
use aoe.Types.{AoeHdr, zero_hdr}
use aoe.Net.{dropped, upto_nul}
use aoe.Flush.{taken}
use aoe.Tools.{aoe_eth_proto, broadcast, with_top, byte}
use aoe.Tools.Report.{strcmp}
use aoe.Tools.Smart.{is_equal}
use aoe.Tools.Socket.{
  Packet, Event, failed, timed_out, got, Exit, success, failure, waiting, Socket, len_of, written,
  Ran, stopped, ran, send, fits,
}

-- What `resp` prints: the device, unless it was named, and an error of `errtab` or the config
-- string. The table has seven errors; none is a read behind it.
pub data Told : Type 0 where
  error : Option ℕ → Told
  text : List ℕ → Told

pub record Reply : Type 0 where
  pub device : Option (ℕ × ℕ)
  pub told : Told

abbrev pub errtab : ℕ → Option ℕ
errtab e = if ltb e 7 then some e else none

-- A device is named.
abbrev pub targeted : ℕ → ℕ → Bool
targeted shelf slot = not (shelf == 0xffff) && not (slot == 0xff)

unfoldable pub resp : ℕ → ℕ → Packet → Reply
resp shelf slot p = record {
  device = if targeted shelf slot then none else some (p.hdr.major, p.hdr.minor);
  told =
      if p.hdr.verfl / 2 ^ 2 % 2 == 0
      then text (upto_nul (taken (byte p.body 6 * 2 ^ 8 + byte p.body 7) (dropped 8 p.body)))
      else error (errtab (p.hdr.err % 8));
}

-- `aoe_tag` of the microseconds that `gettimeofday` says; it fails for none.
abbrev pub aoe_tag : ℕ → ℕ
aoe_tag usec = with_top usec

-- The config query. What is written has all of `struct Conf`, with what was in the buffer behind the
-- string, which `rest` stands for.
unfoldable pub config_query : ℕ → ℕ → ℕ → ℕ → ℕ → List ℕ → List ℕ → Packet
config_query mac cmd shelf slot tag cfgstr rest =
    let n = length cfgstr in
    record {
      kind = aoe_eth_proto;
      hdr = record zero_hdr {
        dst = broadcast;
        src = mac;
        verfl = 0x10;
        major = shelf;
        minor = slot;
        cmd = 1;
        tag = tag;
      };
      body = 0 ∷ 0 ∷ 0 ∷ 0 ∷ 0 ∷ cmd ∷ n / 2 ^ 8 % 2 ^ 8 ∷ n % 2 ^ 8 ∷ (cfgstr ++ rest);
    }

-- The tests of the loop of `cfgquery`.
abbrev pub is_reply : ℕ → ℕ → ℕ → Packet → Bool
is_reply shelf slot tag p =
    p.kind == aoe_eth_proto
    && not (p.hdr.major == 0xffff || p.hdr.minor == 0xff)
    && (shelf == 0xffff || p.hdr.major == shelf)
    && (slot == 0xff || p.hdr.minor == slot)
    && p.hdr.tag == tag

-- What the tool prints, and how it ends; the end of the time is a success.
abbrev pub Printed : Type 0
Printed = List Reply × Exit

abbrev pub before : Reply → Printed → Printed
before r (rs, e) = (r ∷ rs, e)

-- What a `read` leaves in the buffer: behind a short packet stand the bytes from before.
abbrev pub overwritten : List ℕ → List ℕ → List ℕ
overwritten bytes buf = bytes ++ dropped (length bytes) buf

-- The loop of `cfgquery`, with the buffer behind the AoE header; a named device's first reply ends it.
unfoldable pub replies : ℕ → ℕ → ℕ → List ℕ → List Event → Printed
unfolding resp
replies shelf slot tag buf [] = ([], waiting)
replies shelf slot tag buf (failed ∷ es) = ([], failure)
replies shelf slot tag buf (timed_out ∷ es) = ([], success)
replies shelf slot tag buf (got p ∷ es) =
    let buf' = overwritten p.body buf in
    let reply = resp shelf slot (record p { body = buf' }) in
    let rest = replies shelf slot tag buf' es in
    if fits (is_reply shelf slot tag) p
    then (if targeted shelf slot then (reply ∷ [], success) else before reply rest)
    else rest

-- Sent, then read.
abbrev pub after_query : ℕ → ℕ → ℕ → List ℕ → Ran Unit → Printed
after_query shelf slot tag buf (stopped e s) = ([], e)
after_query shelf slot tag buf (ran u s) = replies shelf slot tag buf s.reads

unfoldable pub cfgquery : ℕ → ℕ → ℕ → ℕ → ℕ → List ℕ → List ℕ → Socket → Printed
unfolding config_query replies
cfgquery mac cmd shelf slot tag cfgstr rest s =
    let query = config_query mac cmd shelf slot tag cfgstr rest in
    after_query shelf slot tag query.body (send query s)

-- `tab`: read, test, prefix, set and fset.
abbrev pub tab : List (List ℕ × ℕ)
tab =
    (114 ∷ 101 ∷ 97 ∷ 100 ∷ [], 0)
    ∷ (116 ∷ 101 ∷ 115 ∷ 116 ∷ [], 1)
    ∷ (112 ∷ 114 ∷ 101 ∷ 102 ∷ 105 ∷ 120 ∷ [], 2)
    ∷ (115 ∷ 101 ∷ 116 ∷ [], 3)
    ∷ (102 ∷ 115 ∷ 101 ∷ 116 ∷ [], 4)
    ∷ []

-- `xlatecmd`; none is the end with the usage.
unfoldable pub xlate : List (List ℕ × ℕ) → List ℕ → Option ℕ
xlate [] s = none
xlate ((t, c) ∷ ts) s = let rest = xlate ts s in if is_equal t s then some c else rest

unfoldable pub xlatecmd : List ℕ → Option ℕ
unfolding xlate
xlatecmd s = xlate tab s
