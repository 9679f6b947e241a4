-- ===== src/Tests/Network.antt =====
-- A link that calls the handlers of a server.
use bapi.Grpc.Client.{Link}
use bapi.Grpc.Delivery.{ended, eof, Delivers}
use bapi.Server.{ServerState, Server}
use bapi.Grpc.Service.{
  service_name, handler_export_snapshot, find_method, Handler, methods, full_method,
}
use bapi.Go.Order.{bytes_eq}
use bapi.Go.Run.{blocked, panicked, returned, pure, Run}
use bapi.Base.{refl, some, if◌then◌else◌, [], ◌∷◌, arith, ◌≡◌, none, String, ◌++◌, List, Option}
use bapi.Go.Error.{error_text, plain, GoError}
use bapi.Grpc.Codec.{relayed, failed, done, Coding, Cramberry}
use bapi.Go.Text.{text, Bytes}
use bapi.Grpc.GrpcServer

-- The handler that is registered under a full method name.
abbrev route : {H : Type 0} → Bytes → List (Bytes × H) → Option H
route m [] = none
route m ((n, h) ∷ ms) =
    let rest = route m ms in
    if bytes_eq (text "/" ++ (text service_name ++ (text "/" ++ n))) m then some h else rest

-- A handler's result as it comes back; where a handler panics, the connection breaks.
abbrev back : {R A : Type 0} → (GoError → GoError) → Run R (Coding A) → Run R (Coding A)
back f (returned r t) = returned (relayed f r) t
back f (panicked e t) = returned (failed (plain e)) t
back f (blocked t) = blocked t

abbrev back_stream :
    {R E : Type 0}
    → (GoError → GoError)
    → Run R (List E × Option GoError)
    → Run R (Coding (List E × GoError))
back_stream f (returned r t) = returned (done (r.0, ended f r.1)) t
back_stream f (panicked e t) = returned (done ([], plain e)) t
back_stream f (blocked t) = blocked t

abbrev as_status : GoError → GoError
as_status e = plain (text "rpc error: code = Unknown desc = " ++ error_text e)

abbrev handled : {S E : Type 0} → Option (Handler S E) → Handler S E
handled none x = pure (failed (plain (text "unknown method")))
handled (some h) x = h x

abbrev pub loopback : {S E : Type 0} → Cramberry E → Server S → Link (ServerState S) E
loopback c srv = record {
  unary = λ m x s. back as_status (handled (route m (methods c srv)) x s);
  pull = λ m x s. back_stream as_status (handler_export_snapshot c srv (λ i. none) x s);
  push = λ m ms closed s. back as_status (GrpcServer.import_snapshot c srv ms eof s);
  status = as_status;
  close = pure none;
}

bytes_eq-append : (p a b : Bytes) → bytes_eq (p ++ a) (p ++ b) ≡ bytes_eq a b
unfolding bytes_eq
bytes_eq-append [] a b = refl
bytes_eq-append (x ∷ p) a b = ground (arith, bytes_eq-append p a b)

route-find_method :
    {H : Type 0} (m : String) (ms : List (Bytes × H))
    → route (full_method m) ms ≡ find_method (text m) ms
unfolding full_method find_method
route-find_method m [] = refl
route-find_method m ((n, h) ∷ ms) = ground (
  arith,
  route-find_method m ms,
  bytes_eq-append (text "/") (text service_name ++ (text "/" ++ n))
      (text service_name ++ (text "/" ++ text m)),
  bytes_eq-append (text service_name) (text "/" ++ n) (text "/" ++ text m),
  bytes_eq-append (text "/") n (text m),
)

pub loopback-Delivers :
    {S E : Type 0} (c : Cramberry E) (srv : Server S) → Delivers c srv (loopback c srv)
loopback-Delivers c srv = record {
  unary = λ m h x s t r f q. ground (arith, route-find_method m (methods c srv), f, q);
  pull = λ x s t ms e q. ground (arith, q);
  push = λ ms s t r q. ground (arith, q);
}
