-- ===== src/Labrpc/Dispatch.antt =====
-- labrpc.go: a request finds the method that its text names.
use Prim.Native.String.append
use Prim.Native.String.{String, [] as empty, ◌∷◌ as char_cons, ◌++◌}
use mit.Prelude.{◌+◌, ◌≡◌, ap, ◌∙◌, true, none, some, arith, string_key}
use mit.Labrpc.Service.{
  ReqMsg, Method, Service, Server, split_last_dot, add_service, server_dispatch,
}

-- A text without a dot behind a dot is the last part.
split_last_dot-append :
    (name m : String)
    → split_last_dot m ≡ none
    → split_last_dot (name ++ ("." ++ m)) ≡ some (name, m)
unfolding split_last_dot
split_last_dot-append empty m h =
    let dot : empty ++ ("." ++ m) ≡ char_cons "." m =
      append.nil ("." ++ m) ∙ append.cons "." empty m ∙ ap (char_cons ".") (append.nil m) in
    ap split_last_dot dot ∙ ground arith
split_last_dot-append (char_cons c name) m h =
    ap split_last_dot (append.cons c name ("." ++ m))
    ∙ ground (arith, split_last_dot-append name m h)

module _ {S : Type 0} where
  -- A request `name.method` to a server to which the service `name` was added last runs that method on
  -- its arguments, answers with the method's reply and is counted; the method's name has no dot.
  pub server_dispatch-add_service :
      (svc : Service S) (rs : Server S) (s : S) (m : String) (method : Method S) (req : ReqMsg)
      → split_last_dot m ≡ none
      → svc.methods m ≡ some method
      → req.svc_meth ≡ svc.name ++ ("." ++ m)
      → server_dispatch req (add_service svc rs) s
        ≡ some (
          record (add_service svc rs) { count = rs.count + 1 },
          (method s req.args).0,
          record { ok = true; reply = (method s req.args).1 },
        )
  unfolding server_dispatch add_service
  server_dispatch-add_service svc rs s m method req no_dot found named = ground (
    arith,
    ap split_last_dot named ∙ split_last_dot-append svc.name m no_dot,
    (string_key.same_iff svc.name svc.name),
  )
