-- ===== src/Proxy/Script.antt =====
-- pac/pac.go, pac/pool.go and pac/utils.go: the evaluation of a PAC script. The JavaScript machine is a parameter: running a
-- text or a function gives its next state.
pub mod Entry
use forwarder.Base.{
  ℕ, Bool, true, false, Option, none, some, List, [], ◌∷◌, ◌++◌, Bytes, codes, beq, ltb, ◌&&◌,
  if◌then◌else◌, Result, ok, err, ◌>>=◌,
}
use forwarder.Http.Text.{split_by, trim_space}

pub data ScriptError : Type 0 where
  empty_script : ScriptError
  helper_not_set : Bytes → ScriptError
  script_throws : ScriptError
  no_entry_point : ScriptError
  two_entry_points : ScriptError
  call_throws : ScriptError
  not_a_string : ScriptError
  not_ascii : ScriptError

-- `options` is what the given options do. `call` is of the function that had the name when the script was run; it gives the
-- function's value, and of the value its text if it is one.
pub record Machine : Type 1 where
  pub Vm : Type 0
  pub fresh : Vm
  pub set_helper : Bytes → Vm → Option Vm
  pub run_string : Bytes → Vm → Option Vm
  pub is_function : Bytes → Vm → Bool
  pub call : Bytes → Bytes → Bytes → Vm → Vm × Option (Option Bytes)
  pub utils_script : Bytes
  pub options : Vm → Vm

-- The names that `registerFunctions` sets.
abbrev pub helper_names : List Bytes
helper_names =
    codes "dnsResolve"
    ∷ codes "myIpAddress"
    ∷ codes "isResolvableEx"
    ∷ codes "isInNetEx"
    ∷ codes "dnsResolveEx"
    ∷ codes "myIpAddressEx"
    ∷ codes "sortIpAddressList"
    ∷ codes "getClientVersion"
    ∷ codes "alert"
    ∷ []

abbrev pub all_ascii : Bytes → Bool
all_ascii [] = true
all_ascii (c ∷ s) = ltb c 128 && all_ascii s

abbrev pub find_for_url_ex : Bytes
find_for_url_ex = codes "FindProxyForURLEx"

abbrev pub find_for_url : Bytes
find_for_url = codes "FindProxyForURL"

-- The choice of the entry point, by whether each of the two is a function.
abbrev pub entry_point : Bool → Bool → Result ScriptError Bytes
entry_point false false = err no_entry_point
entry_point true true = err two_entry_points
entry_point true false = ok find_for_url_ex
entry_point false true = ok find_for_url

-- The checks of a value that a script gave.
abbrev pub checked_text : Option (Option Bytes) → Result ScriptError Bytes
checked_text none = err call_throws
checked_text (some none) = err not_a_string
checked_text (some (some s)) = if all_ascii s then ok s else err not_ascii

module _ (m : Machine) where
  open m use {Vm, fresh, set_helper, run_string, is_function, call, utils_script, options}

  -- `ProxyResolver`
  pub record Resolver : Type 0 where
    pub vm : Vm
    pub fn : Bytes

  abbrev pub or_throw : ScriptError → Option Vm → Result ScriptError Vm
  or_throw e none = err e
  or_throw e (some vm) = ok vm

  -- `registerFunctions`
  pub register_functions : List Bytes → Vm → Result ScriptError Vm
  register_functions [] vm = ok vm
  register_functions (n ∷ ns) vm =
      or_throw (helper_not_set n) (set_helper n vm) >>= λ vm'. register_functions ns vm'

  -- The end of `NewProxyResolver`, once the script was run.
  abbrev pub entered : Vm → Result ScriptError Resolver
  entered vm =
      entry_point (is_function find_for_url_ex vm) (is_function find_for_url vm) >>= λ name.
      ok (record { vm = vm; fn = name })

  abbrev pub evaluated : Bytes → Vm → Result ScriptError Resolver
  evaluated script vm = or_throw script_throws (run_string script vm) >>= entered

  abbrev pub prepared : Bytes → Vm → Result ScriptError Resolver
  prepared script vm =
      or_throw script_throws (run_string utils_script vm) >>= λ vm'. evaluated script (options vm')

  -- `NewProxyResolver`; the script of the package runs without an error.
  pub new_proxy_resolver : Bytes → Result ScriptError Resolver
  unfolding register_functions
  new_proxy_resolver script =
      if beq script []
      then err empty_script
      else register_functions helper_names fresh >>= prepared script

  -- `FindProxyForURL`: the text of the URL, its host name and the one that is given.
  pub find_proxy_for_url : Resolver → Bytes → Bytes → Bytes → Resolver × Result ScriptError Bytes
  find_proxy_for_url r url url_hostname hostname =
      let done = call r.fn url (if beq hostname [] then url_hostname else hostname) r.vm in
      (record r { vm = done.0 }, checked_text done.1)

  -- `ProxyResolverPool`: the resolvers that wait; a pool may drop some of them at any time. Its error is the panic when no new
  -- resolver can be made.
  pub pool_find :
      Bytes
      → List Resolver
      → Bytes
      → Bytes
      → Bytes
      → Result ScriptError (List Resolver × Result ScriptError Bytes)
  unfolding find_proxy_for_url new_proxy_resolver
  pool_find script [] url url_hostname hostname = new_proxy_resolver script >>= λ r.
      let done = find_proxy_for_url r url url_hostname hostname in ok (done.0 ∷ [], done.1)
  pool_find script (r ∷ rs) url url_hostname hostname =
      let done = find_proxy_for_url r url url_hostname hostname in ok (done.0 ∷ rs, done.1)

-- `asSlice`, without the position in its error: empty parts are skipped.
module _ {A : Type 0} (parse : Bytes → Option A) where
  abbrev pub parse_parts : List Bytes → Option (List A)
  parse_parts [] = some []
  parse_parts (v ∷ vs) =
      let rest = parse_parts vs in
      if beq (trim_space v) [] then rest else elim (parse (trim_space v)) [
        | none ↦ none
        | some a ↦ elim rest [ none ↦ none | some l ↦ some (a ∷ l) ]
      ]

  pub as_slice : ℕ → Bytes → Option (List A)
  as_slice delim s = parse_parts (split_by delim s)
