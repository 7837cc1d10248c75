-- ===== src/Remote/Serves.antt =====
-- Parts of a conversation with the disk manager, and the requests that it answers in them.
use cs356_mini_file_system.Base.{ap, arith, refl, subst, suc, sym, zero-add, ℕ, ◌+◌, ◌≡◌}
use cs356_mini_file_system.Wire.{Wire, quiet}
use cs356_mini_file_system.Wire.Talk.{Reaches, Reaches-eq, Reaches-refl, Reaches-trans}
use cs356_mini_file_system.DiskMgr.{File, serv_loop}

-- The program comes to the other program while the disk manager, which answers that many requests,
-- comes from one disk file to the other; no message is on its way then.
pub record Serves {A : Type 0} (c : Wire A) (file : File) (c' : Wire A) (file' : File)
    : Type 0 where
  pub requests : ℕ
  pub reaches :
      (more : ℕ)
      → Reaches (quiet c (serv_loop (requests + more) file)) (quiet c' (serv_loop more file'))

module _ {A : Type 0} where
  pub Serves-refl : (c : Wire A) (file : File) → Serves c file c file
  Serves-refl c file = record {
    requests = 0;
    reaches =
        λ more. Reaches-eq _ refl (ap (λ n. serv_loop n file) (zero-add more)) (Reaches-refl _);
  }

  pub Serves-eq : {c c' d : Wire A} {f g : File} → c ≡ c' → Serves c' f d g → Serves c f d g
  Serves-eq {d = d} {f = f} {g = g} e s = subst (λ x. Serves x f d g) (sym e) s

  pub Serves-trans :
      {c d e : Wire A} {f g h : File} → Serves c f d g → Serves d g e h → Serves c f e h
  Serves-trans {f = f} p q = record {
    requests = p.requests + q.requests;
    reaches = λ more.
        let split : p.requests + q.requests + more ≡ p.requests + (q.requests + more) =
          omega arith in
        Reaches-eq _ refl (ap (λ n. serv_loop n f) split)
          (Reaches-trans (p.reaches (q.requests + more)) (q.reaches more));
  }

  -- one request
  pub Serves-one :
      {c d : Wire A} {f g : File}
      → ((more : ℕ) → Reaches (quiet c (serv_loop (suc more) f)) (quiet d (serv_loop more g)))
      → Serves c f d g
  Serves-one {f = f} h = record {
    requests = 1;
    reaches = λ more.
        let next : 1 + more ≡ suc more = omega arith in
        Reaches-eq _ refl (ap (λ n. serv_loop n f) next) (h more);
  }
