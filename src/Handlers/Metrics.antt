-- ===== src/Handlers/Metrics.antt =====
-- internal/handlers/handlers.go: one sample of the counters of a domain.
use zvm_extra.Base.{
  ℕ, zero, suc, ◌+◌, ◌-◌, ◌*◌, ◌^◌, Bool, false, not, Option, none, some, ok, err, List, [], ◌∷◌,
  ◌++◌, ◌&&◌, ◌||◌, if◌then◌else◌, leb, ltb,
}
use zvm_extra.Base.Int.{ℤ, pos, negsuc}
use zvm_extra.Bytes.{Bytes, codes, bytes_eq, trim_space, trim_prefix}
use zvm_extra.Dict.{Dict, get, put}
use zvm_extra.Virsh.Listen.{itoa, is_digit}
use zvm_extra.Virsh.Commands.{Runner, domain_stats, set_mem_stats_period}
use zvm_extra.Handlers.Names.{valid_name, dom_state_name}
use zvm_extra.Handlers.Server.{Request, Reply, answer, failure, is_method}

pub record NetStat : Type 0 where
  pub name : Bytes
  pub rx_bytes : ℕ
  pub tx_bytes : ℕ

pub record BlockStat : Type 0 where
  pub name : Bytes
  pub rd_bytes : ℕ
  pub wr_bytes : ℕ

pub record MetricsBody : Type 0 where
  pub vm : Bytes
  pub state : Bytes
  pub ts_millis : ℕ
  pub cpu_time_ns : ℕ
  pub vcpus : ℤ
  pub mem_cur_kib : ℕ
  pub mem_max_kib : ℕ
  pub mem_stats : Bool
  pub mem_avail_kib : ℕ
  pub mem_unused_kib : ℕ
  pub mem_usable_kib : ℕ
  pub mem_rss_kib : ℕ
  pub nets : List NetStat
  pub blocks : List BlockStat

-- stats[k], which is empty where the key is missing.
unfoldable pub stat : Dict Bytes → Bytes → Bytes
stat stats k = elim (get stats k) [ none ↦ [] | some v ↦ v ]

abbrev pub max_u64 : ℕ
max_u64 = 2 ^ 64 - 1

-- strconv.ParseUint(s, 10, 64) without its error, from the digits `n` read so far.
unfoldable pub parse_uint : ℕ → Bytes → ℕ
parse_uint n [] = n
parse_uint n (c ∷ s) =
    let rest = parse_uint (n * 10 + (c - b'0')) s in
    if not (is_digit c) then 0 else if leb (2 ^ 64) (n * 10 + (c - b'0')) then max_u64 else rest

unfoldable pub atou : Bytes → ℕ
atou s = parse_uint 0 (trim_space s)

-- int(n) of a uint64.
unfoldable pub int_of : ℕ → ℤ
int_of n = if ltb n (2 ^ 63) then pos n else negsuc (2 ^ 64 - 1 - n)

-- How often the loop `for i := 0; i < int(n); i++` runs.
unfoldable pub rounds : ℕ → ℕ
rounds n = if ltb n (2 ^ 63) then n else 0

indexed : Bytes → ℕ → Bytes → Bytes
indexed kind i field = kind ++ b'.' ∷ (itoa i ++ b'.' ∷ field)

unfoldable pub nets_from : Dict Bytes → ℕ → ℕ → List NetStat
unfolding indexed
nets_from stats i zero = []
nets_from stats i (suc n) =
    record {
      name = stat stats (indexed (codes "net") i (codes "name"));
      rx_bytes = atou (stat stats (indexed (codes "net") i (codes "rx.bytes")));
      tx_bytes = atou (stat stats (indexed (codes "net") i (codes "tx.bytes")));
    }
    ∷ nets_from stats (i + 1) n

unfoldable pub blocks_from : Dict Bytes → ℕ → ℕ → List BlockStat
unfolding indexed
blocks_from stats i zero = []
blocks_from stats i (suc n) =
    record {
      name = stat stats (indexed (codes "block") i (codes "name"));
      rd_bytes = atou (stat stats (indexed (codes "block") i (codes "rd.bytes")));
      wr_bytes = atou (stat stats (indexed (codes "block") i (codes "wr.bytes")));
    }
    ∷ blocks_from stats (i + 1) n

-- Both halves of the subtraction are real.
unfoldable pub has_mem_stats : ℕ → ℕ → Bool
has_mem_stats avail unused = ltb 0 avail && (ltb 0 unused && leb unused avail)

unfoldable pub metrics_of : Bytes → ℕ → Dict Bytes → MetricsBody
metrics_of vm now stats =
    let avail = atou (stat stats (codes "balloon.available")) in
    let unused = atou (stat stats (codes "balloon.unused")) in
    record {
      vm = vm;
      state = dom_state_name (stat stats (codes "state.state"));
      ts_millis = now;
      cpu_time_ns = atou (stat stats (codes "cpu.time"));
      vcpus = int_of (atou (stat stats (codes "vcpu.current")));
      mem_cur_kib = atou (stat stats (codes "balloon.current"));
      mem_max_kib = atou (stat stats (codes "balloon.maximum"));
      mem_stats = has_mem_stats avail unused;
      mem_avail_kib = avail;
      mem_unused_kib = unused;
      mem_usable_kib = atou (stat stats (codes "balloon.usable"));
      mem_rss_kib = atou (stat stats (codes "balloon.rss"));
      nets = nets_from stats 0 (rounds (atou (stat stats (codes "net.count"))));
      blocks = blocks_from stats 0 (rounds (atou (stat stats (codes "block.count"))));
    }

-- The nanoseconds of 30 seconds.
abbrev arm_interval : ℕ
arm_interval = 30 * 10 ^ 9

-- `memStatsArmed`: the time of the last attempt of each domain, in nanoseconds of a clock that does not
-- go back.
abbrev pub ArmedAt : Type 0
ArmedAt = Dict ℕ

unfoldable pub is_recent : ℕ → Option ℕ → Bool
is_recent now none = false
is_recent now (some t) = ltb (now - t) arm_interval

-- Whether the collection has to be switched on.
unfoldable pub must_arm : ℕ → Bytes → Dict Bytes → ArmedAt → Bool
must_arm now vm stats armed =
    bytes_eq (stat stats (codes "state.state")) (codes "1")
    && (bytes_eq (stat stats (codes "balloon.available")) [] && not (is_recent now (get armed vm)))

module _ {W : Type 0} (virsh : Runner W) where
  -- The statistics after the collection was switched on, those from before where that fails.
  fresh_stats : Bytes → Dict Bytes → W → Dict Bytes × W
  fresh_stats vm stats w =
      let (r, v) = set_mem_stats_period virsh vm 5 w in
      elim r [
        | err _ ↦ (stats, v)
        | ok _ ↦
            let (s, u) = domain_stats virsh vm v in (elim s [ err _ ↦ stats | ok fresh ↦ fresh ], u)
      ]

  unfoldable pub arm_mem_stats : ℕ → Bytes → Dict Bytes → ArmedAt → W → Dict Bytes × ArmedAt × W
  unfolding fresh_stats
  arm_mem_stats now vm stats armed w =
      if not (must_arm now vm stats armed)
      then (stats, armed, w)
      else let (fresh, v) = fresh_stats vm stats w in (fresh, put vm now armed, v)

  -- `now` in nanoseconds, `millis` since the epoch.
  unfoldable pub metrics_handler :
      ℕ → ℕ → Request (Unit {0}) → ArmedAt → W → Reply MetricsBody × ArmedAt × W
  metrics_handler now millis r armed w =
      let vm = trim_prefix r.path (codes "/api/metrics/") in
      if not (is_method r (codes "GET"))
      then (failure 405 (codes "method not allowed"), armed, w)
      else if bytes_eq vm [] || not (valid_name vm)
      then (failure 400 (codes "invalid vm name"), armed, w)
      else let (r, v) = domain_stats virsh vm w in
        elim r [
          | err m ↦ (failure 500 m, armed, v)
          | ok stats ↦
              let (fresh, armed', u) = arm_mem_stats now vm stats armed v in
              (answer 200 (metrics_of vm millis fresh), armed', u)
        ]
