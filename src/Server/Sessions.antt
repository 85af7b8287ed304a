-- ===== src/Server/Sessions.antt =====
-- What several clients of server.c hold at once, each with its job.
use std.Path.{fun_ext}
use robot_server.Common.{ℕ, ◌≡◌, refl, Bool, false, Option, none, some, List, [], ◌∷◌, arith}
use robot_server.Common.Int.{ℤ, pos, negsuc}
use robot_server.Server.{ClientT, Resources, own}
use robot_server.Server.Release.{own_pointer, own_fd, IsUnused, IsUnusedFd, hold, IsApart}

-- A client, its address and that of its job.
pub record Session : Type 0 where
  pub c : ℕ
  pub j : ℕ
  pub k : ClientT

abbrev pub hold_job : Session → Resources → Resources
hold_job x r = record (hold x.c x.k r) { jobs = own x.j r.jobs }

abbrev pub hold_all : Resources → List Session → Resources
hold_all r [] = r
hold_all r (x ∷ xs) = hold_job x (hold_all r xs)

pub record IsFresh (x : Session) (r : Resources) : Type 0 where
  pub apart : IsApart x.c x.k r
  pub unused : r.jobs x.j ≡ false

abbrev pub AllFresh : Resources → List Session → Type 0
AllFresh r [] = Unit
AllFresh r (x ∷ xs) = IsFresh x (hold_all r xs) × AllFresh r xs

own_comm : (a b : ℕ) (f : ℕ → Bool) → own a (own b f) ≡ own b (own a f)
own_comm a b f = fun_ext (λ i. ground arith)

own_pointer_comm :
    (a b : Option ℕ) (f : ℕ → Bool)
    → own_pointer a (own_pointer b f) ≡ own_pointer b (own_pointer a f)
own_pointer_comm none b f = refl
own_pointer_comm (some a) none f = refl
own_pointer_comm (some a) (some b) f = own_comm a b f

own_fd_comm : (a b : ℤ) (f : ℕ → Bool) → own_fd a (own_fd b f) ≡ own_fd b (own_fd a f)
own_fd_comm (negsuc n) b f = refl
own_fd_comm (pos n) (negsuc m) f = refl
own_fd_comm (pos n) (pos m) f = own_comm n m f

unused_swap :
    (a b : ℕ) (f : ℕ → Bool) → own b f a ≡ false → f b ≡ false → (f a ≡ false) × (own a f b ≡ false)
unused_swap a b f u v = ground arith

IsUnused-swap :
    (a b : Option ℕ) (f : ℕ → Bool)
    → IsUnused a (own_pointer b f)
    → IsUnused b f
    → IsUnused a f × IsUnused b (own_pointer a f)
IsUnused-swap none b f u v = (tt, v)
IsUnused-swap (some a) none f u v = (u, tt)
IsUnused-swap (some a) (some b) f u v = unused_swap a b f u v

IsUnusedFd-swap :
    (a b : ℤ) (f : ℕ → Bool)
    → IsUnusedFd a (own_fd b f)
    → IsUnusedFd b f
    → IsUnusedFd a f × IsUnusedFd b (own_fd a f)
IsUnusedFd-swap (negsuc n) b f u v = (tt, v)
IsUnusedFd-swap (pos n) (negsuc m) f u v = (u, tt)
IsUnusedFd-swap (pos n) (pos m) f u v = unused_swap n m f u v

module _ (x y : Session) (r : Resources) where
  pub hold_job_comm : hold_job x (hold_job y r) ≡ hold_job y (hold_job x r)
  hold_job_comm = λ i. record {
    sockets = own_fd_comm x.k.fd y.k.fd r.sockets i;
    clients = own_comm x.c y.c r.clients i;
    buffers = own_pointer_comm x.k.output_buffer y.k.output_buffer r.buffers i;
    bases = own_pointer_comm x.k.evbase y.k.evbase r.bases i;
    blocks = own_pointer_comm x.k.p_block y.k.p_block r.blocks i;
    events = own_pointer_comm x.k.buf_ev y.k.buf_ev r.events i;
    jobs = own_comm x.j y.j r.jobs i;
  }

  pub IsFresh-swap : IsFresh x (hold_job y r) → IsFresh y r → IsFresh x r × IsFresh y (hold_job x r)
  IsFresh-swap p q =
      let fd = IsUnusedFd-swap x.k.fd y.k.fd r.sockets p.apart.fd q.apart.fd in
      let client = unused_swap x.c y.c r.clients p.apart.client q.apart.client in
      let buffer =
        IsUnused-swap x.k.output_buffer y.k.output_buffer r.buffers p.apart.buffer q.apart.buffer in
      let base = IsUnused-swap x.k.evbase y.k.evbase r.bases p.apart.base q.apart.base in
      let block = IsUnused-swap x.k.p_block y.k.p_block r.blocks p.apart.block q.apart.block in
      let event = IsUnused-swap x.k.buf_ev y.k.buf_ev r.events p.apart.event q.apart.event in
      let job = unused_swap x.j y.j r.jobs p.unused q.unused in
      (
        record {
          apart = record {
            fd = fd.0;
            client = client.0;
            buffer = buffer.0;
            base = base.0;
            block = block.0;
            event = event.0;
          };
          unused = job.0;
        },
        record {
          apart = record {
            fd = fd.1;
            client = client.1;
            buffer = buffer.1;
            base = base.1;
            block = block.1;
            event = event.1;
          };
          unused = job.1;
        },
      )
