-- ===== src/Config/Idempotent.antt =====
-- `setDefaults` of config/config.go: filling twice is filling once.
use balance_x.Common.{zero, suc, ◌≡◌, refl, String, List, [], ◌∷◌, map, arith, ap₂, ap, ◌∙◌}
use balance_x.Common.Int.{ℤ, pos, negsuc}
use balance_x.Common.Float.{Float64}
use balance_x.Config.{
  HealthCheckConfig, ServerConfig, ServiceConfig, Settings, Dict, Config, EntryPointConfig,
}
use balance_x.Config.Defaults.{
  int_or, text_or, float_or, default_timeouts, default_settings, fill_check, default_server_check,
  default_service_server, default_breaker, default_service, empty_check, fill_entry_points,
  set_defaults, fill_services, standard_check, map_values, implicit_service, default_protocol,
  legacy_entry_points,
}

pub int_or_idem : (x d : ℤ) → int_or (int_or x d) d ≡ int_or x d
unfolding int_or
int_or_idem (pos zero) d = ground arith
int_or_idem (pos (suc n)) d = refl
int_or_idem (negsuc n) d = refl

pub text_or_idem : (x d : String) → text_or (text_or x d) d ≡ text_or x d
unfolding text_or
text_or_idem x d = ground arith

float_or_idem : {F : Type 0} ⦃fl : Float64 F⦄ (x d : F) → float_or (float_or x d) d ≡ float_or x d
unfolding float_or
float_or_idem x d = ground arith

default_settings_idem :
    {F : Type 0} ⦃fl : Float64 F⦄ (c : Settings F)
    → default_settings (default_settings c) ≡ default_settings c
unfolding default_settings default_timeouts
default_settings_idem c = simp (int_or_idem, text_or_idem, float_or_idem)

fill_check_idem : (h d : HealthCheckConfig) → fill_check (fill_check h d) d ≡ fill_check h d
unfolding fill_check
fill_check_idem h d = simp (int_or_idem, text_or_idem)

default_server_check_idem :
    (n : ℤ) (ss : List ServerConfig)
    → map (default_server_check n) (map (default_server_check n) ss)
      ≡ map (default_server_check n) ss
unfolding default_server_check
default_server_check_idem n [] = refl
default_server_check_idem n (s ∷ ss) = simp (fill_check_idem, default_server_check_idem n ss)

default_service_servers_idem :
    (h : HealthCheckConfig) (ss : List ServerConfig)
    → map (default_service_server h) (map (default_service_server h) ss)
      ≡ map (default_service_server h) ss
unfolding default_service_server
default_service_servers_idem n [] = refl
default_service_servers_idem n (s ∷ ss) =
    simp (int_or_idem, fill_check_idem, default_service_servers_idem n ss)

default_service_idem :
    {F : Type 0} (c : Settings F) (svc : ServiceConfig)
    → default_service c (default_service c svc) ≡ default_service c svc
unfolding default_service default_breaker
default_service_idem c svc =
    simp (int_or_idem, text_or_idem, fill_check_idem, default_service_servers_idem)

map_values_idem :
    {V : Type 0} (f : V → V) (m : Dict V)
    → ((v : V) → f (f v) ≡ f v)
    → map_values f (map_values f m) ≡ map_values f m
map_values_idem f [] h = refl
map_values_idem f ((k, v) ∷ m) h = ap₂ (λ w r. (k, w) ∷ r) (h v) (map_values_idem f m h)

-- The check of the implicit service "default" is the standard one.
empty-standard : (n : ℤ) → fill_check empty_check (standard_check n) ≡ standard_check n
unfolding fill_check int_or text_or
empty-standard n = refl

check-after-service :
    (n : ℤ) (ss : List ServerConfig)
    → map (default_server_check n) (map (default_service_server (standard_check n)) ss)
      ≡ map (default_service_server (standard_check n)) ss
unfolding default_server_check default_service_server
check-after-service n [] = refl
check-after-service n (s ∷ ss) = simp (fill_check_idem, check-after-service n ss)

implicit_servers :
    {F : Type 0} (c : Settings F) (ss : List ServerConfig)
    → (default_service c (implicit_service ss)).servers
      ≡ map (default_service_server (standard_check c.health_interval)) ss
unfolding default_service
implicit_servers c ss =
    ap (λ h. map (default_service_server h) ss) (empty-standard c.health_interval)

check-implicit_service :
    {F : Type 0} (c : Settings F) (ss : List ServerConfig)
    → map (default_server_check c.health_interval) (default_service c (implicit_service ss)).servers
      ≡ (default_service c (implicit_service ss)).servers
check-implicit_service c ss = rw (implicit_servers c ss) (check-after-service c.health_interval ss)

-- Filling once more what was filled changes nothing.
fill_services_again :
    {F : Type 0} (c : Settings F) (ss : List ServerConfig) (m : Dict ServiceConfig)
    → let check = map (default_server_check c.health_interval) in
      let out = fill_services c (check ss) m in fill_services c (check out.0) out.1 ≡ out
unfolding fill_services
fill_services_again c [] [] = refl
fill_services_again c (s ∷ ss) [] =
    let xs = map (default_server_check c.health_interval) (s ∷ ss) in
    ap₂ (λ ys v. (ys, ("default", v) ∷ [])) (check-implicit_service c xs)
      (default_service_idem c (implicit_service xs))
fill_services_again c [] (kv ∷ m) =
    ap (λ r. ([], r)) (map_values_idem (default_service c) (kv ∷ m) (default_service_idem c))
fill_services_again c (s ∷ ss) (kv ∷ m) =
    ap₂ (λ ys r. (ys, r)) (default_server_check_idem c.health_interval (s ∷ ss))
      (map_values_idem (default_service c) (kv ∷ m) (default_service_idem c))

default_protocol_idem :
    (ep : EntryPointConfig) → default_protocol (default_protocol ep) ≡ default_protocol ep
unfolding default_protocol
default_protocol_idem ep = simp text_or_idem

fill_entry_points_again :
    {F : Type 0} (port_text : ℤ → String) (c : Settings F) (m : Dict EntryPointConfig)
    → fill_entry_points port_text c (fill_entry_points port_text c m)
      ≡ fill_entry_points port_text c m
unfolding fill_entry_points
fill_entry_points_again port_text c [] =
    map_values_idem default_protocol (legacy_entry_points port_text c) default_protocol_idem
fill_entry_points_again port_text c (kv ∷ m) =
    map_values_idem default_protocol (kv ∷ m) default_protocol_idem

-- Applying the defaults to a configuration that has them changes nothing.
pub set_defaults_idem :
    {F : Type 0} ⦃fl : Float64 F⦄ (port_text : ℤ → String) (c : Config F)
    → set_defaults port_text (set_defaults port_text c) ≡ set_defaults port_text c
unfolding set_defaults
set_defaults_idem {F} port_text c =
    ap
      (λ q.
        refill q (fill_services q (map (default_server_check q.health_interval) filled.0) filled.1)
          (fill_entry_points port_text q points))
      (default_settings_idem c.settings)
    ∙ ap₂ (refill s) (fill_services_again s c.servers c.services)
        (fill_entry_points_again port_text s c.entry_points)
  where
    s : Settings F
    s = default_settings c.settings

    filled : List ServerConfig × Dict ServiceConfig
    filled = fill_services s (map (default_server_check s.health_interval) c.servers) c.services

    points : Dict EntryPointConfig
    points = fill_entry_points port_text s c.entry_points

    refill : Settings F → List ServerConfig × Dict ServiceConfig → Dict EntryPointConfig → Config F
    refill q f e = record c { settings = q; servers = f.0; services = f.1; entry_points = e }
