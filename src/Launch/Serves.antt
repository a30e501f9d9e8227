-- ===== src/Launch/Serves.antt =====
-- With what the bridge serves.
use hik_hcnet_http_bridge.Common.{
  ◌≡◌, refl, sym, subst, [], ◌∷◌, ◌||◌, ◌⊎◌, inl, inr, Bool, true, false, List, Option, none, some,
  if◌then◌else◌, arith,
}
use hik_hcnet_http_bridge.Text.{Bytes, codes, equal, eq_of_equal}
use hik_hcnet_http_bridge.Error.{
  throw, invalid_command, Result, ok, err, Fault, Returns, >>=-Returns, guard-Returns,
  sdk_not_found, ffmpeg_not_found,
}
use hik_hcnet_http_bridge.Config.{Config, Environment, load_config}
use hik_hcnet_http_bridge.Launch.{
  default_path, read_options, is_version, below, prepared, serve, run_bridge,
}

-- The words of a command that starts the server, and the path that it names: `run` says nothing, and the
-- last path behind a --config counts.
pub data Starts : Bytes → List Bytes → Bytes → Type 0 where
  no_more : {path : Bytes} → Starts path [] path
  running :
      {path named : Bytes} {words : List Bytes}
      → Starts path words named
      → Starts path (codes "run" ∷ words) named
  configured :
      {path next named : Bytes} {words : List Bytes}
      → Starts next words named
      → Starts path (codes "--config" ∷ next ∷ words) named

-- Which of the three words it was.
chosen :
    {A : Type 0} (b c d : Bool) (x y z : Result A) (r : A)
    → (if b then x else if c then y else if d then z else throw 400 invalid_command) ≡ ok r
    → (b ≡ true) × (x ≡ ok r) ⊎ ((y ≡ ok r) ⊎ ((d ≡ true) × (z ≡ ok r)))
chosen true c d x y z r e = inl (refl, e)
chosen false true d x y z r e = inr (inl e)
chosen false false true x y z r e = inr (inr (refl, e))
chosen false false false x y z r e = cc e

-- What the first word does.
first_word :
    (a path : Bytes) (validate : Bool) (rest : List Bytes) (r : Bytes × Bool)
    → read_options false path validate (a ∷ rest) ≡ ok r
    → (equal a (codes "run") ≡ true) × (read_options false path validate rest ≡ ok r)
      ⊎ ((read_options false path true rest ≡ ok r)
          ⊎ ((equal a (codes "--config") ≡ true) × (read_options true path validate rest ≡ ok r)))
unfolding read_options
first_word a path validate rest r e =
    chosen (equal a (codes "run"))
      (equal a (codes "validate-config") || equal a (codes "--validate-config"))
      (equal a (codes "--config")) (read_options false path validate rest)
      (read_options false path true rest) (read_options true path validate rest) r e

-- Once a check is asked for, the answer asks for it.
read_options_check :
    (expects : Bool) (path named : Bytes) (arguments : List Bytes)
    → ¬ (read_options expects path true arguments ≡ ok (named, false))
unfolding read_options
read_options_check true path named [] = λ e. cc e
read_options_check false path named [] = λ e. ground (arith, e)
read_options_check true path named (a ∷ rest) = read_options_check false a named rest
read_options_check false path named (a ∷ rest) = λ e. elim (first_word a path true rest _ e) [
  | inl (f, k) ↦ read_options_check false path named rest k
  | inr (inl k) ↦ read_options_check false path named rest k
  | inr (inr (f, k)) ↦ read_options_check true path named rest k
]

-- What may follow, where a path is still to come and where it is not.
abbrev StartsBehind : Bool → Bytes → List Bytes → Bytes → Type 0
StartsBehind true path words named = Starts path (codes "--config" ∷ words) named
StartsBehind false path words named = Starts path words named

read_options-Starts :
    (expects : Bool) (path named : Bytes) (arguments : List Bytes)
    → read_options expects path false arguments ≡ ok (named, false)
    → StartsBehind expects path arguments named
unfolding read_options
read_options-Starts true path named [] e = cc e
read_options-Starts false path named [] e = subst (Starts path []) (ground (arith, e)) no_more
read_options-Starts true path named (a ∷ rest) e =
    configured (read_options-Starts false a named rest e)
read_options-Starts false path named (a ∷ rest) e = elim (first_word a path false rest _ e) [
  | inl (f, k) ↦
      subst (λ word. Starts path (word ∷ rest) named) (sym (eq_of_equal a (codes "run") f))
        (running (read_options-Starts false path named rest k))
  | inr (inl k) ↦ absurd (read_options_check false path named rest k)
  | inr (inr (f, k)) ↦
      subst (λ word. Starts path (word ∷ rest) named) (sym (eq_of_equal a (codes "--config") f))
        (read_options-Starts true path named rest k)
]

module _ (environment : Bytes → Environment) (file : Bytes → Option Bytes) (exists : Bytes → Bool)
    (run_server : Config → Result (Unit {0})) where
  -- The configuration is the one at the path that the arguments name, and the library of the SDK and
  -- FFmpeg are there.
  pub record IsServable (arguments : List Bytes) (config : Config) : Type 0 where
    pub path : Bytes
    pub asked : Starts default_path arguments path
    pub loaded : load_config (environment path) (file path) ≡ ok config
    pub sdk : exists (below config.sdk_directory (codes "libhcnetsdk.so")) ≡ true
    pub ffmpeg : exists config.ffmpeg_path ≡ true

  abbrev Offers : List Bytes → Option Config → Type 0
  Offers arguments none = Unit {0}
  Offers arguments (some config) = IsServable arguments config

  abbrev Whatever : Fault → Type 0
  Whatever e = Unit {0}

  offered :
      (arguments : List Bytes) (path : Bytes) (validate : Bool) (config : Config)
      → read_options false default_path false arguments ≡ ok (path, validate)
      → load_config (environment path) (file path) ≡ ok config
      → exists (below config.sdk_directory (codes "libhcnetsdk.so")) ≡ true
      → exists config.ffmpeg_path ≡ true
      → Offers arguments (if validate then none else some config)
  offered arguments path true config asked loaded sdk ffmpeg = tt
  offered arguments path false config asked loaded sdk ffmpeg = record {
    path = path;
    asked = read_options-Starts false default_path path arguments asked;
    loaded = loaded;
    sdk = sdk;
    ffmpeg = ffmpeg;
  }

  prepared-Offers :
      (arguments : List Bytes)
      → Returns (Offers arguments) Whatever (prepared environment file exists run_server arguments)
  unfolding prepared
  prepared-Offers arguments =
      >>=-Returns (Offers arguments) Whatever (read_options false default_path false arguments) _
        (λ e h. tt)
        λ options asked.
          >>=-Returns (Offers arguments) Whatever
            (load_config (environment options.0) (file options.0)) _ (λ e h. tt)
            λ config loaded.
              guard-Returns (Offers arguments) Whatever
                (exists (below config.sdk_directory (codes "libhcnetsdk.so"))) 500 sdk_not_found _
                (λ h. tt)
                λ sdk.
                  guard-Returns (Offers arguments) Whatever (exists config.ffmpeg_path) 500
                    ffmpeg_not_found _ (λ h. tt)
                    λ ffmpeg. offered arguments options.0 options.1 config asked loaded sdk ffmpeg

  served :
      (arguments : List Bytes) (r : Result (Option Config)) (config : Config)
      → Returns (Offers arguments) Whatever r
      → (serve environment file exists run_server r).served ≡ some config
      → IsServable arguments config
  served arguments (ok (some c)) config h e = subst (IsServable arguments) (ground (arith, e)) h
  served arguments (ok none) config h e = cc
  served arguments (err f) config h e = cc

  -- The server only runs where the arguments are words that start it, with the configuration at the path
  -- that they name, and where the library of the SDK and FFmpeg are there.
  pub run_bridge-IsServable :
      (arguments : List Bytes) (config : Config)
      → (run_bridge environment file exists run_server arguments).served ≡ some config
      → IsServable arguments config
  unfolding run_bridge
  run_bridge-IsServable arguments config h = behind (is_version arguments) h
    where
      behind :
          (b : Bool)
          → (if b
              then record { exit_code = 0; served = none }
              else serve environment file exists run_server
                  (prepared environment file exists run_server arguments)).served
            ≡ some config
          → IsServable arguments config
      behind true e = cc
      behind false e =
          served arguments (prepared environment file exists run_server arguments) config
            (prepared-Offers arguments) e
