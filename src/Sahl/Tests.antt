-- ===== src/Sahl/Tests.antt =====
-- Runs of the text helpers, the header cache, the registry and `Create`, and the theorems on them at
-- concrete inputs.
use luwes.Base.{
  ◌≡◌, refl, none, some, List, [], ◌∷◌, ◌++◌, is_some, arith, if◌then◌else◌, pos, negsuc, ◌-◌, ◌^◌,
}
use luwes.Base.Bytes.{Bytes, ascii, bytes_eq, lookup, insert}
use luwes.Shared.Base.{MetricsResult}
use luwes.Sahl.Host.{Call}
use luwes.Sahl.Text.{is_digit, parse_status, parse_status_lem, as_int}
use luwes.Sahl.Request.{
  HeaderMap, Header, or_empty, get, peek, header_reset, IsCoherent, get_lem,
  header_reset-IsCoherent,
}
use luwes.Sahl.Writer.{ok, panic, registered_twice, nil_handler}
use luwes.Sahl.Filter.{HandlerFunc}
use luwes.Sahl.Registry.{
  Middleware, chain, ConfigHandle, Registered, Registry, must_add, plain, factories,
  new_config_factory, register_all,
}
use luwes.Sahl.Registry.Laws.{nested, chain_lem, made, registered_lem}
use luwes.Sahl.Create.{config_factory_create, refused, config_failed, Sane, create-Sane}

parse_status_lem_example : as_int (parse_status (ascii "503" ++ ascii " OK")) ≡ pos 503
unfolding is_digit
parse_status_lem_example =
    parse_status_lem (ascii "503") (ascii " OK") (refl, (refl, (refl, tt))) refl (omega arith)

-- From 2 ^ 63 on the `int` is negative.
status_wraps : as_int (parse_status (ascii "9223372036854775808")) ≡ negsuc (2 ^ 63 - 1)
unfolding parse_status is_digit
status_wraps = refl

abbrev one_header : HeaderMap
one_header = record {
  get_one_into = λ key. if bytes_eq key (ascii "x-id") then some (ascii "7") else none;
  get_all = (ascii "x-id", ascii "7") ∷ [];
}

abbrev used_header : Header
used_header = record { hm = one_header; cache = (ascii "x-id", ascii "8") ∷ [] }

get_lem_example :
    ((get (ascii "X-Id") (header_reset one_header used_header)).0
      ≡ or_empty (peek (ascii "X-Id") (header_reset one_header used_header)))
    × (peek (ascii "x-id") (get (ascii "X-Id") (header_reset one_header used_header)).1
        ≡ peek (ascii "x-id") (header_reset one_header used_header))
    × IsCoherent (get (ascii "X-Id") (header_reset one_header used_header)).1
get_lem_example =
    get_lem (ascii "X-Id") (ascii "x-id") (header_reset one_header used_header)
      (header_reset-IsCoherent one_header used_header)

got : (get (ascii "X-Id") (header_reset one_header used_header)).0 ≡ ascii "7"
unfolding get header_reset bytes_eq
got = refl

abbrev silent : HandlerFunc
silent w req = []

abbrev marking : Bytes → Middleware
marking mark next w req = Call.set_request_header mark [] ∷ next w req

chain_lem_example :
    chain silent (marking (ascii "m1") ∷ marking (ascii "m2") ∷ [])
    ≡ nested silent (marking (ascii "m1") ∷ marking (ascii "m2") ∷ [])
chain_lem_example = chain_lem silent (marking (ascii "m1") ∷ marking (ascii "m2") ∷ [])

abbrev two_filters : List (Bytes × Registered)
two_filters = (ascii "auth", plain (some silent)) ∷ (ascii "tap", plain none) ∷ []

registered_lem_example :
    (reg : Registry) × (register_all two_filters [] ≡ ok reg)
    × (lookup (ascii "tap") (factories reg) ≡ made (ascii "tap") (lookup (ascii "tap") two_filters))
    × (must_add (ascii "tap") (plain none) reg ≡ (
        if is_some (lookup (ascii "tap") two_filters)
        then panic registered_twice
        else ok (insert (ascii "tap") (plain none) reg)))
unfolding lookup
registered_lem_example = registered_lem two_filters (ascii "tap") (plain none) refl

abbrev no_metrics : ConfigHandle
no_metrics = record {
  define_counter = λ name tags. (0, MetricsResult.frozen);
  define_histogram = λ name tags. (0, MetricsResult.frozen);
  raw_config = none;
}

create-Sane_example :
    Sane no_metrics
      (new_config_factory (ascii "auth") (plain (some silent)))
      (config_factory_create no_metrics (new_config_factory (ascii "auth") (plain (some silent))))
create-Sane_example =
    create-Sane no_metrics (new_config_factory (ascii "auth") (plain (some silent)))

-- An error of the config function is returned and logged.
abbrev bad_config : Registered
bad_config = record (plain (some silent)) { config_fn = some (λ ch. some (ascii "bad")) }

config_refused :
    config_factory_create no_metrics (new_config_factory (ascii "auth") bad_config)
    ≡ ok (refused (config_failed (ascii "bad")), config_failed (ascii "bad") ∷ [])
unfolding config_factory_create new_config_factory plain
config_refused = refl

nil_panics :
    config_factory_create no_metrics (new_config_factory (ascii "tap") (plain none))
    ≡ panic nil_handler
unfolding config_factory_create new_config_factory plain
nil_panics = refl
