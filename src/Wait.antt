-- ===== src/Wait.antt =====
-- cmd/apirun/commands/wait.go: waiting for an endpoint. What the n-th probe answers, the time behind
-- it, and whether the context is done in the sleep behind it are functions of n. Times and durations
-- are in nanoseconds. time.ParseDuration and the case mappings are parameters.
pub mod Polled
use apirun.Prelude.{
  ℕ, zero, suc, ◌+◌, String, Bool, true, false, ◌&&◌, ◌||◌, Option, none, some, List, [], ◌∷◌, elem,
  eqb, ltb, ltb_ℤ, add_ℤ, ℤ, pos, negsuc, trim_space, ◌==◌, Result, ok, err, if◌then◌else◌,
}
use apirun.Env.{Env}
use apirun.Env.Render.{Engine, render_go_template}

pub record WaitConfig : Type 0 where
  pub url : String
  pub method : String
  pub status : ℕ
  pub timeout : String
  pub interval : String

pub record ClientConfig : Type 0 where
  pub insecure : Bool
  pub min_tls_version : String
  pub max_tls_version : String

-- waitParams
pub record WaitParams : Type 0 where
  pub url : String
  pub method : String
  pub expected : ℕ
  pub timeout : ℤ
  pub interval : ℤ

pub record TlsConfig : Type 0 where
  pub min_version : ℕ
  pub max_version : ℕ
  pub insecure_skip_verify : Bool

pub data WaitError : Type 0 where
  -- the URL, the expected status and the last one
  timed_out : String → ℕ → ℕ → WaitError
  context_done : String → WaitError

-- The answer to a probe: a status, 0 without an answer, and an error.
pub record Probed : Type 0 where
  pub status : ℕ
  pub error : Option String

pub record Surroundings : Type 0 where
  pub engine : Engine
  pub to_lower : String → String
  pub to_upper : String → String
  pub parse_duration : String → Option ℤ
  -- the method that is sent, the URL, the TLS settings and the number of the probe
  pub probe : String → String → TlsConfig → ℕ → Probed
  pub started : ℤ
  pub clock : ℕ → ℤ
  pub done : ℕ → Option String

-- parseTLSVersion, with the numbers of crypto/tls
unfoldable pub parse_tls_version : (String → String) → String → ℕ
parse_tls_version to_lower version =
    let v = to_lower (trim_space version) in
    if elem v ("1.0" ∷ "10" ∷ "tls1.0" ∷ "tls10" ∷ [])
    then 0x0301
    else if elem v ("1.1" ∷ "11" ∷ "tls1.1" ∷ "tls11" ∷ [])
    then 0x0302
    else if elem v ("1.2" ∷ "12" ∷ "tls1.2" ∷ "tls12" ∷ [])
    then 0x0303
    else if elem v ("1.3" ∷ "13" ∷ "tls1.3" ∷ "tls13" ∷ [])
    then 0x0304
    else 0

abbrev pub or_duration : (String → Option ℤ) → ℤ → String → ℤ
or_duration parse default s =
    if trim_space s == ""
    then default
    else elim (parse (trim_space s)) [ none ↦ default | some d ↦ d ]

abbrev pub to_method : String → String
to_method method = if method == "HEAD" then "HEAD" else "GET"

module _ (w : Surroundings) where
  -- parseWaitConfig
  unfoldable pub parse_wait_config : WaitConfig → Env → WaitParams
  parse_wait_config wc env = record {
    url = render_go_template w.engine env (trim_space wc.url);
    method = w.to_upper (if trim_space wc.method == "" then "GET" else trim_space wc.method);
    expected = if eqb wc.status 0 then 200 else wc.status;
    timeout = or_duration w.parse_duration (pos 60_000_000_000) wc.timeout;
    interval = or_duration w.parse_duration (pos 2_000_000_000) wc.interval;
  }

  -- setupTLSConfig
  unfoldable pub setup_tls_config : ClientConfig → TlsConfig
  setup_tls_config c = record {
    min_version = parse_tls_version w.to_lower c.min_tls_version;
    max_version = parse_tls_version w.to_lower c.max_tls_version;
    insecure_skip_verify = c.insecure;
  }

  -- performHTTPRequest
  unfoldable pub perform_http_request : TlsConfig → String → String → ℕ → Probed
  perform_http_request tls method url n = w.probe (to_method method) url tls n

  abbrev pub is_answer : ℕ → Probed → Bool
  is_answer expected p = elim p.error [ none ↦ eqb p.status expected | some e ↦ false ]

  -- The loop of performPolling from the n-th probe, with fuel for the probes, up to a deadline; none
  -- means that the fuel ran out.
  unfoldable pub poll : TlsConfig → WaitParams → ℤ → ℕ → ℕ → Option (Result WaitError (Unit {0}))
  poll tls params deadline zero n = none
  poll tls params deadline (suc fuel) n =
      let p = perform_http_request tls params.method params.url n in
      let more = poll tls params deadline fuel (suc n) in
      if is_answer params.expected p
      then some (ok tt)
      else if ltb_ℤ deadline (w.clock n)
      then some (err (timed_out params.url params.expected p.status))
      else elim (w.done n) [ some e ↦ some (err (context_done e)) | none ↦ more ]

  -- DoWait; a blank URL is not waited for.
  unfoldable pub do_wait :
      ℕ → Env → WaitConfig → ClientConfig → Option (Result WaitError (Unit {0}))
  do_wait fuel env wc client =
      let params = parse_wait_config wc env in
      if trim_space wc.url == ""
      then some (ok tt)
      else poll (setup_tls_config client) params (add_ℤ w.started params.timeout) fuel 0
