-- ===== src/Relay/System/Ownership.antt =====
-- In every reachable state the list of clients holds exactly the connections that are being
-- served, each once, and all of them are open.
use eng_project.Base.{ℕ, ◌+◌, ◌≡◌, refl, List, [], ◌∷◌, ◌++◌, ◌==◌, if◌then◌else◌, arith, suc}
use eng_project.Relay.Handler.{Event, Send, remove_client}
use eng_project.Relay.System.{
  Texts, Thread, absent, receiving, leaving, erased, Accepting, listed, Server, IsHeld, Step,
  accept_fails, accept, enlist, start_thread, relay, hang_up, erase, close_client, init, Reach,
  start, later,
}

-- How often a descriptor stands in the list.
unfoldable pub occurs : ℕ → List ℕ → ℕ
occurs fd [] = 0
occurs fd (c ∷ cs) = if c == fd then suc (occurs fd cs) else occurs fd cs

occurs-append : (fd : ℕ) (xs ys : List ℕ) → occurs fd (xs ++ ys) ≡ occurs fd xs + occurs fd ys
unfolding occurs
occurs-append fd [] ys = omega arith
occurs-append fd (x ∷ xs) ys = ground (arith, occurs-append fd xs ys)

pub occurs-remove_client :
    (fd g : ℕ) (xs : List ℕ) → occurs g (remove_client fd xs) ≡ (if fd == g then 0 else occurs g xs)
unfolding occurs remove_client
occurs-remove_client fd g [] = ground arith
occurs-remove_client fd g (x ∷ xs) = ground (arith, occurs-remove_client fd g xs)

occurs-singleton : (fd g : ℕ) → occurs g (fd ∷ []) ≡ (if fd == g then 1 else 0)
unfolding occurs
occurs-singleton fd g = refl

-- 1 for a connection that is being served: from `push_back` to `erase`.
abbrev pub served : Accepting → Thread → ℕ → ℕ
served (listed new_fd) absent fd = if new_fd == fd then 1 else 0
served m absent fd = 0
served m receiving fd = 1
served m leaving fd = 1
served m erased fd = 0

pub record Inv (s : Server) : Type 0 where
  pub counted : (fd : ℕ) → occurs fd s.clients ≡ served s.main (s.thread fd) fd
  pub fresh : (fd : ℕ) → IsHeld s.main fd → s.thread fd ≡ absent

init-Inv : Inv init
unfolding occurs
init-Inv = record { counted = λ fd. refl; fresh = λ fd h. refl }

pub Step-Inv :
    {texts : Texts} {send_result : Send} {s t : Server} {es : List Event}
    → Step texts send_result s es t
    → Inv s
    → Inv t
Step-Inv (accept_fails w) inv = inv
Step-Inv {s = s} (accept new_fd w free) inv = record {
  counted = λ fd. ground (arith, inv.counted fd);
  fresh = λ fd h. ground (arith, inv.fresh fd);
}
Step-Inv {s = s} (enlist new_fd w) inv = record {
  counted = λ fd. ground (
    arith,
    inv.counted fd,
    inv.fresh fd,
    occurs-append fd s.clients (new_fd ∷ []),
    occurs-singleton new_fd fd,
  );
  fresh = λ fd h. ground (arith, inv.fresh fd);
}
Step-Inv {s = s} (start_thread new_fd w) inv = record {
  counted = λ fd. ground (arith, inv.counted fd, inv.fresh fd);
  fresh = λ fd h. elim h [ ];
}
Step-Inv (relay fd byte bytes r) inv = inv
Step-Inv {s = s} (hang_up fd r at_recv no_bytes) inv = record {
  counted = λ g. ground (arith, inv.counted g, inv.fresh g);
  fresh = λ g h. ground (arith, inv.fresh g);
}
Step-Inv {s = s} (erase fd l) inv = record {
  counted = λ g.
      ground (arith, inv.counted g, inv.fresh g, inv.fresh fd, occurs-remove_client fd g s.clients);
  fresh = λ g h. ground (arith, inv.fresh g);
}
Step-Inv {s = s} (close_client fd e) inv = record {
  counted = λ g. ground (arith, inv.counted g, inv.fresh g, inv.fresh fd);
  fresh = λ g h. ground (arith, inv.fresh g);
}

pub Reach-Inv :
    {texts : Texts} {send_result : Send} {s : Server} → Reach texts send_result s → Inv s
Reach-Inv start = init-Inv
Reach-Inv (later r st) = Step-Inv st (Reach-Inv r)
