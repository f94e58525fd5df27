-- ===== src/EntryPoint.antt =====
-- internal/entrypoint/entrypoint.go, on handlers of any type `H`. The servers of net/http are
-- parameters: a start is the call that it makes, a shutdown what the server answers. The goroutines of
-- a shutdown append their errors in any order: that of the list.
use balance_x.Common.{
  refl, String, none, some, List, if◌then◌else◌, map, Option, ◌≡◌, ◌∷◌, str_eq, [], ◌∙◌, ap,
}
use balance_x.Common.Dict.{Dict, lookup, insert, lookup-insert}
use balance_x.Config.{EntryPointConfig}
use balance_x.Middleware.Chain.{Middleware, chain, onion, chain_lem}

pub record EntryPoint (H : Type 0) : Type 0 where
  pub name : String
  pub config : EntryPointConfig
  pub handler : H

-- The middlewares around the handler, if there are any.
abbrev pub wrapped : {H : Type 0} → List (Middleware H) → H → H
wrapped [] handler = handler
wrapped (m ∷ ms) handler = chain (m ∷ ms) handler

unfoldable pub new_entry_point :
    {H : Type 0} → String → EntryPointConfig → H → List (Middleware H) → EntryPoint H
new_entry_point name cfg handler middlewares = record {
  name = name;
  config = cfg;
  handler = wrapped middlewares handler;
}

-- The call of the server that `Start` makes.
pub data ServeCall : Type 0 where
  -- The certificate and the key.
  listen_and_serve_tls : String → String → ServeCall
  listen_and_serve : ServeCall

abbrev file_or : String → String → String
file_or name standard = if str_eq name "" then standard else name

unfoldable pub start : {H : Type 0} → EntryPoint H → ServeCall
start ep = elim ep.config.tls [
  | none ↦ listen_and_serve
  | some tls ↦
      if str_eq ep.config.protocol "https"
      then listen_and_serve_tls (file_or tls.cert_file "server.crt")
          (file_or tls.key_file "server.key")
      else listen_and_serve
]

-- `Manager`, without its channels.
pub record EntryPoints (H : Type 0) : Type 0 where
  pub entry_points : Dict (EntryPoint H)

unfoldable pub register : {H : Type 0} → EntryPoint H → EntryPoints H → EntryPoints H
register ep m = record m { entry_points = insert ep.name ep m.entry_points }

unfoldable pub get_entry_point : {H : Type 0} → String → EntryPoints H → Option (EntryPoint H)
get_entry_point name m = lookup name m.entry_points

unfoldable pub names : {H : Type 0} → EntryPoints H → List String
names m = map (λ e. e.0) m.entry_points

unfoldable pub start_all : {H : Type 0} → EntryPoints H → Dict ServeCall
unfolding start
start_all m = map (λ e. (e.0, start e.1)) m.entry_points

-- The errors of `ShutdownAll`, with the entry point of each; none is a success. `shut_down` is what
-- the server of an entry point answers.
abbrev shutdown_errors :
    {H E : Type 0} → (EntryPoint H → Option E) → Dict (EntryPoint H) → List (String × E)
shutdown_errors shut_down [] = []
shutdown_errors shut_down ((name, ep) ∷ rest) =
    let later = shutdown_errors shut_down rest in
    elim (shut_down ep) [ none ↦ later | some e ↦ (name, e) ∷ later ]

unfoldable pub shutdown_all :
    {H E : Type 0} → (EntryPoint H → Option E) → EntryPoints H → List (String × E)
shutdown_all shut_down m = shutdown_errors shut_down m.entry_points

wrapped_lem :
    {H : Type 0} (middlewares : List (Middleware H)) (handler : H)
    → wrapped middlewares handler ≡ onion middlewares handler
unfolding onion
wrapped_lem [] handler = refl
wrapped_lem (m ∷ ms) handler = chain_lem (m ∷ ms) handler

-- A registered entry point is found under its name, every other name as before, and its handler is
-- the given one inside the middlewares, the first of them outermost.
pub register_lem :
    {H : Type 0} (name other : String) (cfg : EntryPointConfig) (handler : H)
    (middlewares : List (Middleware H)) (m : EntryPoints H)
    → get_entry_point other (register (new_entry_point name cfg handler middlewares) m) ≡ (
        if str_eq name other
        then some (record { name = name; config = cfg; handler = onion middlewares handler })
        else get_entry_point other m)
unfolding get_entry_point register new_entry_point
register_lem name other cfg handler middlewares m =
    lookup-insert name other _ m.entry_points
    ∙ ap
        (λ h.
          if str_eq name other
          then some (record { name = name; config = cfg; handler = h })
          else lookup other m.entry_points)
        (wrapped_lem middlewares handler)
