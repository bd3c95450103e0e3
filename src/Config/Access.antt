-- ===== src/Config/Access.antt =====
-- The accessors of the configuration: `nvipfix_config_collectors_get`, `nvipfix_config_switch_info_get`,
-- `nvipfix_config_switch_info_free` and `nvipfix_config_get_export_interval` (src/config.c). Each takes
-- and returns the static variables, `isInitialized` among them.
use ipfix.Common.{ℕ, ◌+◌, Bool, true, false, List, Option, none, some, ◌≡◌, arith}
use ipfix.Config.Reader.{config_init}
use ipfix.Config.{Collector, Globals, free_string}
use ipfix.Heap.{M, ◌>>=◌, ◌>>◌, pure, malloc, free, roomy}
use ipfix.Text.Trim.{string_duplicate}
use ipfix.Text.{Bytes}
use ipfix.Time.{Timespan}

-- `nvIPFIX_switch_info_t`
pub record SwitchInfo : Type 0 where
  pub name : Option Bytes
  pub host : Option Bytes
  pub login : Option Bytes
  pub password : Option Bytes

unfoldable pub config_collectors_get :
    Option Bytes → Bool → Globals → M ((Bool × Globals) × List Collector)
config_collectors_get file initialized g = do
  (initialized', g') ← config_init file initialized g
  pure ((initialized', g'), g'.collectors)

-- The copies in a new block; a copy that could not be allocated is NULL.
copy_info : Bool → Globals → M (Option SwitchInfo)
copy_info false g = pure none
copy_info true g = do
  name ← string_duplicate g.switch_name
  host ← string_duplicate g.switch_api_host
  login ← string_duplicate g.switch_api_login
  password ← string_duplicate g.switch_api_password
  pure (some (record { name = name; host = host; login = login; password = password }))

unfoldable pub config_switch_info_get :
    Option Bytes → Bool → Globals → M ((Bool × Globals) × Option SwitchInfo)
unfolding copy_info
config_switch_info_get file initialized g = do
  (initialized', g') ← config_init file initialized g
  got ← malloc
  info ← copy_info got g'
  pure ((initialized', g'), info)

-- The block of the struct is not given back.
unfoldable pub config_switch_info_free : Option SwitchInfo → M (Unit {0})
config_switch_info_free none = pure tt
config_switch_info_free (some a_switchInfo) = do
  free_string a_switchInfo.name
  free_string a_switchInfo.host
  free_string a_switchInfo.login
  free_string a_switchInfo.password

unfoldable pub config_get_export_interval :
    Option Bytes → Bool → Globals → M ((Bool × Globals) × Timespan)
config_get_export_interval file initialized g = do
  (initialized', g') ← config_init file initialized g
  pure ((initialized', g'), g'.export_interval)

-- On an initialised configuration and a heap that refuses nothing, the switch info holds the four
-- settings, and when it is freed again one block is left over.
pub switch_info_leak :
    (file : Option Bytes) (g : Globals) (n : ℕ)
    → ((config_switch_info_get file true g (roomy n)).0.1
        ≡ some (record {
          name = g.switch_name;
          host = g.switch_api_host;
          login = g.switch_api_login;
          password = g.switch_api_password;
        }))
      × ((config_switch_info_free
            (config_switch_info_get file true g (roomy n)).0.1
            (config_switch_info_get file true g (roomy n)).1).1.live
          ≡ n + 1)
unfolding config_switch_info_get config_switch_info_free config_init string_duplicate malloc free
switch_info_leak file g n = ground arith
