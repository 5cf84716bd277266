-- ===== src/Proxy/Script/Entry.antt =====
-- What a resolver runs, and what it gives.
use forwarder.Base.{
  ◌≡◌, refl, ◌∙◌, ap, ◌⊎◌, inl, inr, Bool, true, false, Option, none, some, [], Bytes, beq, ok, err,
  ◌>>=◌, bind-eq-ok, ok_injective, if◌then◌else◌, Bool-cases,
}
use forwarder.Proxy.Script.{
  Machine, ScriptError, script_throws, Resolver, all_ascii, find_for_url_ex, find_for_url,
  helper_names, entry_point, checked_text, or_throw, entered, evaluated, prepared,
  register_functions, new_proxy_resolver, find_proxy_for_url,
}

-- A text that a script gave is ASCII.
checked_text-ascii :
    (o : Option (Option Bytes)) {s : Bytes} → checked_text o ≡ ok s → all_ascii s ≡ true
checked_text-ascii none h = cc
checked_text-ascii (some none) h = cc
checked_text-ascii (some (some t)) {s} h = elim (Bool-cases (all_ascii t)) [
  | inl good ↦
      let k : ok t ≡ ok s = rw good at h in ap all_ascii (ok_injective {a = s} k refl) ∙ good
  | inr bad ↦ absurd (refused (rw bad at h))
]
  where
    refused : err ScriptError.not_ascii ≡ ok s → ⊥
    refused k = cc

module _ (m : Machine) where
  open m use {Vm, fresh, is_function, run_string, utils_script, options}

  -- The resolver runs the one entry point that its script defines.
  abbrev pub HasEntry : Resolver m → Type 0
  HasEntry r =
      ((r.fn ≡ find_for_url_ex)
        × (is_function find_for_url_ex r.vm ≡ true)
        × (is_function find_for_url r.vm ≡ false))
      ⊎ ((r.fn ≡ find_for_url)
          × (is_function find_for_url_ex r.vm ≡ false)
          × (is_function find_for_url r.vm ≡ true))

  chosen :
      (vm : Vm) (ex plain : Bool) (r : Resolver m)
      → is_function find_for_url_ex vm ≡ ex
      → is_function find_for_url vm ≡ plain
      → (entry_point ex plain >>= λ name. ok (record { vm = vm; fn = name })) ≡ ok r
      → HasEntry r
  chosen vm false false r a b h = cc
  chosen vm true true r a b h = cc
  chosen vm true false r a b h = rw (ok_injective {a = r} h refl) (inl (refl, a, b))
  chosen vm false true r a b h = rw (ok_injective {a = r} h refl) (inr (refl, a, b))

  entered-HasEntry : (vm : Vm) {r : Resolver m} → entered m vm ≡ ok r → HasEntry r
  entered-HasEntry vm {r} h =
      chosen vm (is_function find_for_url_ex vm) (is_function find_for_url vm) r refl refl h

  given-HasEntry :
      (script : Bytes) {r : Resolver m}
      → (register_functions m helper_names fresh >>= prepared m script) ≡ ok r
      → HasEntry r
  given-HasEntry script h =
      let (vm1, h1, k1) =
        bind-eq-ok (register_functions m helper_names fresh) {rest = prepared m script} h in
      let (vm2, h2, k2) =
        bind-eq-ok (or_throw m script_throws (run_string utils_script vm1))
          {rest = λ vm. evaluated m script (options vm)} h1 in
      let (vm3, h3, k3) =
        bind-eq-ok (or_throw m script_throws (run_string script (options vm2))) {rest = entered m}
          h2 in
      entered-HasEntry vm3 h3

  -- A resolver is made only of a script that defines exactly one of the two entry points, and it runs that one.
  pub new_proxy_resolver-HasEntry :
      (script : Bytes) (r : Resolver m) → new_proxy_resolver m script ≡ ok r → HasEntry r
  unfolding new_proxy_resolver
  new_proxy_resolver-HasEntry script r h = elim (Bool-cases (beq script [])) [
    | inl empty ↦ absurd (refused (rw empty at h))
    | inr given ↦ given-HasEntry script (rw given at h)
  ]
    where
      refused : err ScriptError.empty_script ≡ ok r → ⊥
      refused k = cc

  -- A text that a resolver gives for a URL is ASCII.
  pub find_proxy_for_url-ascii :
      (r : Resolver m) (url url_hostname hostname : Bytes) (s : Bytes)
      → (find_proxy_for_url m r url url_hostname hostname).1 ≡ ok s
      → all_ascii s ≡ true
  unfolding find_proxy_for_url
  find_proxy_for_url-ascii r url url_hostname hostname s h =
      checked_text-ascii
        ((m.call r.fn url (if beq hostname [] then url_hostname else hostname) r.vm).1) h
