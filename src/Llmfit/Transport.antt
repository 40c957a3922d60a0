-- ===== src/Llmfit/Transport.antt =====
-- client.go, and the transports of NewDetector: what an answer over HTTP or from the binary becomes.
-- The request, the subprocess and the decoding of JSON are the input. The texts of errors, which
-- nothing compares, are shortened.
use Prim.Native.String.{◌++◌, slice}
use llmfit_dra.Prelude.{
  String, ℕ, ◌≡◌, Option, none, some, Bool, false, ◌&&◌, ◌||◌, ◌==◌, if◌then◌else◌, eqb, is_some,
  arith, refl,
}
use llmfit_dra.Prelude.Text.{cut_text}
use llmfit_dra.ModelClaim.Template.{trim_right}
use llmfit_dra.Llmfit.{System, no_gpus, parsed}
use llmfit_dra.Llmfit.Detector.{TransportReply, answer, failure}

-- Where a client sends its requests: the base URL, and the socket to dial if it is no TCP address.
pub record Client : Type 0 where
  pub base : String
  pub socket : Option String

abbrev is_slash : ℕ → Bool
is_slash c = eqb c b'/'

abbrev http_client : String → Option Client
http_client url =
    if is_some (cut_text "http://" url) || is_some (cut_text "https://" url)
    then some (record { base = trim_right is_slash url; socket = none })
    else none

-- `NewClient`; `none` is its error.
unfoldable pub new_client : String → Option Client
unfolding cut_text trim_right
new_client url = elim (cut_text "unix://" url) [
  | some path ↦
      if path == "" then none else some (record { base = "http://llmfit"; socket = some path })
  | none ↦ http_client url
]

-- The transports of `NewDetector`; `none` is its error, a field is `none` where nothing is
-- configured.
pub record Transports : Type 0 where
  pub api : Option Client
  pub bin : Option String

abbrev bin_of : String → Option String
bin_of bin = if bin == "" then none else some bin

unfoldable pub new_transports : String → String → Option Transports
unfolding new_client
new_transports url bin =
    if url == "" then some (record { api = none; bin = bin_of bin }) else (elim (new_client url) [
      | none ↦ none
      | some c ↦ some (record { api = some c; bin = bin_of bin })
    ])

-- What the HTTP request gives: no response, or a status and the body, `none` if reading it fails.
pub data Fetched : Type 0 where
  no_response : String → Fetched
  responded : ℕ → Option String → Fetched

module _ {F : Type 0} (decode : String → Option (System F)) where
  abbrev reply_of : Option (System F) → TransportReply F
  reply_of none = failure "llmfit system JSON"
  reply_of (some sys) = answer sys

  -- `Parse`
  unfoldable pub parse : String → TransportReply F
  unfolding parsed
  parse body = reply_of (parsed (decode body))

  -- `Client.Detect` after the request; at most 2 ^ 20 bytes of the body are read.
  unfoldable pub client_detect : Fetched → TransportReply F
  unfolding parse
  client_detect (no_response e) = failure ("llmfit API: " ++ e)
  client_detect (responded status none) =
      if eqb status 200 then failure "llmfit API read" else failure "llmfit API"
  client_detect (responded status (some body)) =
      if eqb status 200 then parse (slice body 0 1048576) else failure "llmfit API"

  -- `Detect` after the run of the binary, `none` if it fails.
  unfoldable pub exec_detect : Option String → TransportReply F
  unfolding parse
  exec_detect none = failure "running llmfit"
  exec_detect (some out) = parse out

  reply_of-hardware :
      (o : Option (System F)) (sys : System F)
      → reply_of (parsed o) ≡ answer sys
      → (sys.cpu_name == "" && no_gpus sys.gpus) ≡ false
  unfolding parsed
  reply_of-hardware none sys h = absurd (ground arith)
  reply_of-hardware (some s) sys h = ground arith

  parse-hardware :
      (body : String) (sys : System F)
      → parse body ≡ answer sys
      → (sys.cpu_name == "" && no_gpus sys.gpus) ≡ false
  unfolding parse
  parse-hardware body sys h = reply_of-hardware (decode body) sys h

  -- A report over HTTP names a CPU or a GPU.
  pub client_detect-hardware :
      (f : Fetched) (sys : System F)
      → client_detect f ≡ answer sys
      → (sys.cpu_name == "" && no_gpus sys.gpus) ≡ false
  unfolding client_detect
  client_detect-hardware (no_response e) sys h = absurd (ground arith)
  client_detect-hardware (responded status none) sys h = absurd (ground arith)
  client_detect-hardware (responded status (some body)) sys h =
      ground (arith, parse-hardware (slice body 0 1048576) sys)

socket_url :
    new_client "unix:///run/llmfit/llmfit.sock"
    ≡ some (record { base = "http://llmfit"; socket = some "/run/llmfit/llmfit.sock" })
unfolding new_client
socket_url = refl

tcp_url :
    new_client "http://127.0.0.1:8787/"
    ≡ some (record { base = "http://127.0.0.1:8787"; socket = none })
unfolding new_client
tcp_url = refl
