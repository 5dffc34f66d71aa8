-- ===== src/Gateway.antt =====
-- internal/gateway/gateway.go: the registration of the route with the gateway of the host.
use zvm_extra.Base.{
  ℕ, zero, suc, ◌*◌, ◌/◌, Bool, true, false, not, Result, ok, err, List, [], ◌∷◌, ◌++◌, ◌&&◌,
  if◌then◌else◌, ltb, ◌==◌,
}
use zvm_extra.Bytes.{Bytes, codes, bytes_eq, has_prefix, trim_space}
use zvm_extra.Action.{Action, raise_if, asks, ◌>>=◌}
use zvm_extra.Virsh.Listen.{itoa}
use zvm_extra.Virsh.Commands.{trim_slashes}

pub record Manager : Type 0 where
  pub url_file : Bytes
  pub path : Bytes
  pub target : Bytes

-- The file of the address, and a POST of a route: the code and the body of its answer.
pub record Http (W : Type 0) : Type 0 where
  pub read_file : Bytes → W → Result Bytes
  pub post_route : Bytes → Bytes → Bytes → Action W (ℕ × Bytes)

-- The base of the address in the text of the file.
unfoldable pub base_of : Bytes → Bytes → Result Bytes
base_of file text =
    let u = trim_space text in
    if bytes_eq u []
    then err (file ++ codes " is empty")
    else ok (
        trim_slashes (
          if not (has_prefix u (codes "http://")) && not (has_prefix u (codes "https://"))
          then codes "http://" ++ u
          else u))

module _ {W : Type 0} (http : Http W) where
  unfoldable pub mgmt_url : Manager → Action W Bytes
  mgmt_url m = do text ← asks (http.read_file m.url_file); asks (λ _. base_of m.url_file text)

  unfoldable pub register : Manager → Action W (Unit {0})
  register m = do
    base ← mgmt_url m
    resp ← http.post_route (base ++ codes "/v1/gateway/routes") m.path m.target
    raise_if (not (resp.0 / 100 == 2)) (
        codes "gateway register "
        ++ (m.path ++ (codes ": HTTP " ++ (itoa resp.0 ++ (codes ": " ++ trim_space resp.1)))))

abbrev pub first_delay : ℕ
first_delay = 2

abbrev pub max_delay : ℕ
max_delay = 30

-- The delay after a delay, in seconds.
unfoldable pub next_delay : ℕ → ℕ
next_delay d = if ltb d max_delay then d * 2 else d

module _ {W : Type 0} (http : Http W) where
  -- The first loop of RegisterWithRetry: the delays it waited, and whether the route is registered. It ends
  -- after `fuel` attempts, as it does where the daemon stops.
  unfoldable pub retry : ℕ → ℕ → Manager → W → List ℕ × Bool × W
  retry zero delay m w = ([], false, w)
  retry (suc fuel) delay m w =
      let (r, v) = register http m w in
      elim r [
        | ok _ ↦ ([], true, v)
        | err _ ↦
            let (delays, done, u) = retry fuel (next_delay delay) m v in (delay ∷ delays, done, u)
      ]

  -- The second loop: `ticks` times after five minutes each; the errors are only logged.
  unfoldable pub refresh : ℕ → Manager → W → List Bytes × W
  refresh zero m w = ([], w)
  refresh (suc ticks) m w =
      let (r, v) = register http m w in
      let (logs, u) = refresh ticks m v in (elim r [ ok _ ↦ logs | err e ↦ e ∷ logs ], u)
