-- ===== src/Control/Arguments.antt =====
-- The server hands a request to `record start` as arguments of a command line; package flag reads
-- from them what was requested. Over `handleStart` of cli/control_server.go and `recordStart` of
-- cli/main.go.
use http_capture.Prelude.{
  false, Bytes, codes, List, [], ◌∷◌, Option, none, some, if◌then◌else◌, ◌≡◌, refl, ap, ◌∙◌, str_eq,
  Bool-cases, inl, inr, split_at_byte,
}
use http_capture.Effects.{ok}
use http_capture.Numbers.{itoa}
use http_capture.Flags
use http_capture.Flags.{Setting, Parsed, add_setting}
use http_capture.World.{Device}
use http_capture.Session.{engine_charles}
use http_capture.Session.Start.{StartOptions, start_flags, start_options, default_proxy}
use http_capture.Session.Manager.{join_host_port}
use http_capture.Control.{StartRequest, start_args, package_args, first_non_blank}

-- What a request asks of `record start`.
abbrev pub requested : StartRequest → Device → Option Bytes → StartOptions
requested payload device remote = record {
  engine = device.engine;
  proxy =
      if str_eq device.engine engine_charles
      then join_host_port payload.proxy_host (itoa payload.proxy_port)
      else default_proxy;
  client_ip = elim remote [ none ↦ [] | some host ↦ host ];
  device_name = first_non_blank (payload.device_name ∷ device.device_name ∷ []);
  clear = false;
  packages = payload.packages;
}

abbrev as_options : Bytes → Bytes → Bytes → Bytes → List Bytes → StartOptions
as_options engine proxy client_ip device_name packages = record {
  engine = engine;
  proxy = proxy;
  client_ip = client_ip;
  device_name = device_name;
  clear = false;
  packages = packages;
}

package_settings : List Bytes → List Setting
package_settings [] = []
package_settings (name ∷ packages) = (codes "package", name) ∷ package_settings packages

parse-package_args :
    (packages : List Bytes)
    → Flags.parse start_flags (package_args packages) ≡ ok (package_settings packages, [])
unfolding Flags.parse start_flags package_args package_settings str_eq split_at_byte
parse-package_args [] = refl
parse-package_args (name ∷ packages) =
    ap (add_setting (codes "package") name) (parse-package_args packages)

values_of-package_settings :
    (packages : List Bytes)
    → Flags.values_of (codes "package") (package_settings packages) ≡ packages
unfolding Flags.values_of package_settings str_eq
values_of-package_settings [] = refl
values_of-package_settings (name ∷ packages) =
    ap (λ names. name ∷ names) (values_of-package_settings packages)

value_of-package_settings :
    (fallback : Bytes) (packages : List Bytes) (name : Bytes)
    → str_eq (codes "package") name ≡ false
    → Flags.value_of name fallback (package_settings packages) ≡ fallback
unfolding Flags.value_of package_settings
value_of-package_settings fallback [] name h = refl
value_of-package_settings fallback (p ∷ packages) name h =
    ap (λ b. Flags.value_of name (if b then p else fallback) (package_settings packages)) h
    ∙ value_of-package_settings fallback packages name h

-- The options read from the settings of the packages, with these values before them.
behind_packages :
    (engine proxy client_ip device_name : Bytes) (packages : List Bytes)
    → let settings = package_settings packages in
      record {
        engine = Flags.value_of (codes "engine") engine settings;
        proxy = Flags.value_of (codes "proxy") proxy settings;
        client_ip = Flags.value_of (codes "client-ip") client_ip settings;
        device_name = Flags.value_of (codes "device") device_name settings;
        clear = Flags.is_true (Flags.value_of (codes "clear") (codes "false") settings);
        packages = Flags.values_of (codes "package") settings;
      }
      ≡ as_options engine proxy client_ip device_name packages
unfolding Flags.is_true str_eq
behind_packages engine proxy client_ip device_name packages = λ i. record {
  engine = value_of-package_settings engine packages (codes "engine") refl i;
  proxy = value_of-package_settings proxy packages (codes "proxy") refl i;
  client_ip = value_of-package_settings client_ip packages (codes "client-ip") refl i;
  device_name = value_of-package_settings device_name packages (codes "device") refl i;
  clear = Flags.is_true (value_of-package_settings (codes "false") packages (codes "clear") refl i);
  packages = values_of-package_settings packages i;
}

abbrev pub ParsesTo : List Bytes → StartOptions → Type 0
ParsesTo args options =
    (settings : List Setting) × (Flags.parse start_flags args ≡ ok (settings, []))
    × (start_options settings ≡ options)

-- Whatever the request holds, values that look like flags included, `record start` reads its
-- arguments without an error as the options that were requested: the engine and the name of the
-- device, the client's address, the proxy's address for Charles, and every package.
pub start_args-options :
    (payload : StartRequest) (device : Device) (remote : Option Bytes)
    → ParsesTo (start_args payload device remote) (requested payload device remote)
unfolding start_args Flags.parse start_flags str_eq split_at_byte start_options Flags.is_true
    Flags.value_of Flags.values_of
start_args-options payload device none =
    let name = first_non_blank (payload.device_name ∷ device.device_name ∷ []) in
    let address = join_host_port payload.proxy_host (itoa payload.proxy_port) in
    let packages = parse-package_args payload.packages in
    elim (Bool-cases (str_eq device.engine engine_charles)) [
      | inl charles ↦ simp charles (
        (codes "engine", device.engine)
            ∷ (codes "device", name)
            ∷ (codes "proxy", address)
            ∷ package_settings payload.packages,
        ap
            (λ r.
              add_setting (codes "engine") device.engine
                (add_setting (codes "device") name (add_setting (codes "proxy") address r)))
            packages,
        behind_packages device.engine address [] name payload.packages,
      )
      | inr other ↦ simp other (
        (codes "engine", device.engine)
            ∷ (codes "device", name)
            ∷ package_settings payload.packages,
        ap (λ r. add_setting (codes "engine") device.engine (add_setting (codes "device") name r))
            packages,
        behind_packages device.engine default_proxy [] name payload.packages,
      )
    ]
start_args-options payload device (some host) =
    let name = first_non_blank (payload.device_name ∷ device.device_name ∷ []) in
    let address = join_host_port payload.proxy_host (itoa payload.proxy_port) in
    let packages = parse-package_args payload.packages in
    elim (Bool-cases (str_eq device.engine engine_charles)) [
      | inl charles ↦ simp charles (
        (codes "engine", device.engine)
            ∷ (codes "device", name)
            ∷ (codes "client-ip", host)
            ∷ (codes "proxy", address)
            ∷ package_settings payload.packages,
        ap
            (λ r. add_setting (codes "engine") device.engine (
              add_setting (codes "device") name
                (add_setting (codes "client-ip") host (add_setting (codes "proxy") address r))))
            packages,
        behind_packages device.engine address host name payload.packages,
      )
      | inr other ↦ simp other (
        (codes "engine", device.engine)
            ∷ (codes "device", name)
            ∷ (codes "client-ip", host)
            ∷ package_settings payload.packages,
        ap
            (λ r.
              add_setting (codes "engine") device.engine
                (add_setting (codes "device") name (add_setting (codes "client-ip") host r)))
            packages,
        behind_packages device.engine default_proxy host name payload.packages,
      )
    ]
