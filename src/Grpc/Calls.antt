-- ===== src/Grpc/Calls.antt =====
-- Single calls over the network, beside the same calls in process.
pub mod Lifecycle
pub mod Optional
pub mod Streams
use bapi.Go.Run.{returned}
use bapi.Go.Text.{text}
use bapi.Grpc.Service.{received, encoding, encoded, methods, find_method}
use bapi.Grpc.GrpcServer.{Remote}
use bapi.Base.{refl, arith, ap, some, ◌≡◌, String}
use bapi.Grpc.Delivery.{Faithful, Delivers}
use bapi.Grpc.Client.{open_reply, on_remote, invoke, Link, ClientState}
use bapi.Server.{Server, ServerState}
use bapi.Grpc.Codec.{relayed, failed, done, Coding, Codec, unmarshal, marshal, Cramberry}

-- The client of a server that nothing else has called.
abbrev pub mirror : {S : Type 0} → ServerState S → ClientState (ServerState S)
mirror s = record { caps = s.caps; guard = s.guard; remote = s }

module _ {S E : Type 0} (c : Cramberry E) (srv : Server S) (cc : Link (ServerState S) E)
    (d : Delivers c srv cc) where
  served :
      {A B : Type 0} (q : Codec E A) (p : Codec E B) (f : A → Remote S B) (x : E) (a : A)
      (s t : ServerState S) (r : Coding B)
      → q.decode x ≡ done a
      → f a s ≡ returned r t
      → encoding p (received q f) x s ≡ returned (encoded p r) t
  unfolding unmarshal
  served q p f x a s t r dx h = ground (arith, dx, h)

  pub relay :
      {B : Type 0} (p : Codec E B) (r : Coding B)
      → Faithful p
      → open_reply c cc p (relayed cc.status (encoded p r)) ≡ relayed cc.status r
  unfolding marshal unmarshal
  relay p (failed e) fp = refl
  relay p (done b) fp = let (y, ey, dy) = fp b in ground (arith, ey, dy)

  pub invoke-delivered :
      {A B : Type 0} (m : String) (q : Codec E A) (p : Codec E B) (f : A → Remote S B)
      → find_method (text m) (methods c srv) ≡ some (encoding p (received q f))
      → Faithful q
      → Faithful p
      → (a : A) (s t : ServerState S) (r : Coding B) → f a s ≡ returned r t
      → invoke c cc m q p a s ≡ returned (relayed cc.status r) t
  unfolding invoke marshal
  invoke-delivered m q p f found fq fp a s t r h =
      let (x, ex, dx) = fq a in
      let u =
        d.unary m (encoding p (received q f)) x s t (encoded p r) found
          (served q p f x a s t r dx h) in
      ground (arith, ex, u, relay p r fp)
