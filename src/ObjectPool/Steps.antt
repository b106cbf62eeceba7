-- ===== src/ObjectPool/Steps.antt =====
-- The threads that share a pool, call by call, and when no object has two owners.
use contention_prof.Base.{
  arith, ℕ, zero, suc, ◌+◌, ◌-◌, ◌≡◌, ◌≤◌, ◌<◌, refl, sym, ap, ◌∙◌, Bool, List, [], ◌∷◌,
  if◌then◌else◌, ltb, some, get_elem?, set, inl, inr, Bool-cases,
}
use contention_prof.ObjectPool.{
  Obj, Shared, LocalPool, PoolEnv, new_local_pool, get_object, return_object, delete_local_pool,
}
use contention_prof.ObjectPool.Occurrences.{
  is_same, one_if, in_chunks, in_locals, in_locals-set, is_same-le, is_same_self, one_if-le,
}
use contention_prof.ObjectPool.Owner.{
  constructed, handed, IsFresh, IsMade, get_object-Keeps, return_object-held,
  delete_local_pool-held,
}

-- The pool, the local pool of each thread, and how often each object is in the callers' hands.
pub record Pool : Type 0 where
  pub shared : Shared
  pub locals : List LocalPool
  pub out : Obj → ℕ

abbrev pub empty_pool : Pool
empty_pool = record {
  shared = record { free_chunks = []; groups = []; made = 0; item_count = λ b. 0 };
  locals = [];
  out = λ o. 0;
}

-- a new thread calls `get_or_new_local_pool`
abbrev pub join_pool : Pool → Pool
join_pool p = record p { locals = new_local_pool ∷ p.locals }

abbrev pub get_in : PoolEnv → (block_items i : ℕ) → LocalPool → Pool → Pool
get_in env n i local p =
    let g = get_object env n local p.shared in
    record {
      shared = g.shared;
      locals = set p.locals i g.local;
      out = λ o. p.out o + handed o g.result;
    }

abbrev pub return_in : Bool → (chunk_items i : ℕ) → Obj → LocalPool → Pool → Pool
return_in memory n i x local p =
    let (done, local', s') = return_object memory n x local p.shared in
    record {
      shared = s';
      locals = set p.locals i local';
      out = λ o. p.out o - (if done then one_if (is_same o x) else 0);
    }

abbrev pub exit_in : Bool → (i : ℕ) → LocalPool → Pool → Pool
exit_in memory i local p = record p {
  shared = delete_local_pool memory local p.shared;
  locals = set p.locals i new_local_pool;
}

-- The states that calls of any threads in any order lead to. An object is returned by a caller that
-- holds it. A thread that exits leaves an empty place.
pub data Reach (block_items chunk_items : ℕ) : Pool → Type 0 where
  start : Reach block_items chunk_items empty_pool
  joins : {p : Pool} → Reach block_items chunk_items p → Reach block_items chunk_items (join_pool p)
  gets :
      {p : Pool} (env : PoolEnv) (i : ℕ) (local : LocalPool)
      → get_elem? p.locals i ≡ some local
      → Reach block_items chunk_items p
      → Reach block_items chunk_items (get_in env block_items i local p)
  returns :
      {p : Pool} (memory : Bool) (i : ℕ) (x : Obj) (local : LocalPool)
      → get_elem? p.locals i ≡ some local
      → 0 < p.out x
      → Reach block_items chunk_items p
      → Reach block_items chunk_items (return_in memory chunk_items i x local p)
  exits :
      {p : Pool} (memory : Bool) (i : ℕ) (local : LocalPool)
      → get_elem? p.locals i ≡ some local
      → Reach block_items chunk_items p
      → Reach block_items chunk_items (exit_in memory i local p)

-- Every object that was made is in at most one place, and none that was not is anywhere.
pub record Inv (p : Pool) : Type 0 where
  pub fresh : IsFresh p.shared
  pub blocks :
      (i : ℕ) (local : LocalPool) → get_elem? p.locals i ≡ some local → IsMade local p.shared
  pub owners :
      (o : Obj)
      → p.out o + in_locals o p.locals + in_chunks o p.shared.free_chunks ≤ constructed o p.shared

-- Replacing the local pool of one thread keeps the blocks of the others.
blocks-set :
    (l : List LocalPool) (i : ℕ) (new : LocalPool) (s s' : Shared)
    → ((j : ℕ) (local : LocalPool) → get_elem? l j ≡ some local → IsMade local s)
    → s.made ≤ s'.made
    → IsMade new s'
    → (j : ℕ) (local : LocalPool) → get_elem? (set l i new) j ≡ some local
    → IsMade local s'
blocks-set [] i new s s' old more made j local h b e = absurd (ground arith)
blocks-set (x ∷ l) zero new s s' old more made zero local h b e =
    let same : new ≡ local = ground arith in made b (ap (λ (q : LocalPool). q.cur_block) same ∙ e)
blocks-set (x ∷ l) zero new s s' old more made (suc j) local h b e =
    let lt : b < s.made = old (suc j) local h b e in omega arith
blocks-set (x ∷ l) (suc i) new s s' old more made zero local h b e =
    let lt : b < s.made = old zero local h b e in omega arith
blocks-set (x ∷ l) (suc i) new s s' old more made (suc j) local h b e =
    blocks-set l i new s s' (λ k q. old (suc k) q) more made j local h b e

blocks-join :
    (l : List LocalPool) (s : Shared)
    → ((j : ℕ) (local : LocalPool) → get_elem? l j ≡ some local → IsMade local s)
    → (j : ℕ) (local : LocalPool) → get_elem? (new_local_pool ∷ l) j ≡ some local
    → IsMade local s
blocks-join l s old zero local h b e = absurd (ground arith)
blocks-join l s old (suc j) local h b e = old j local h b e

get_in-Inv :
    (env : PoolEnv) (n i : ℕ) (local : LocalPool) (p : Pool)
    → get_elem? p.locals i ≡ some local
    → Inv p
    → Inv (get_in env n i local p)
get_in-Inv env n i local p here v =
    let g = get_object env n local p.shared in
    let keeps =
      λ (o : Obj). get_object-Keeps o env n local p.shared v.fresh (v.blocks i local here) in
    let (fresh, balance, more, made) = keeps (record { block = 0; item = 0 }) in
    record {
      fresh = fresh;
      blocks = blocks-set p.locals i g.local p.shared g.shared v.blocks more made;
      owners = λ o.
          let (f, bal, mo, ma) = keeps o in
          omega (arith, v.owners o, in_locals-set o p.locals i local g.local here, bal);
    }

return_in-Inv :
    (memory : Bool) (n i : ℕ) (x : Obj) (local : LocalPool) (p : Pool)
    → get_elem? p.locals i ≡ some local
    → 0 < p.out x
    → Inv p
    → Inv (return_in memory n i x local p)
return_in-Inv memory n i x local p here has v =
    let (done, local', s') = return_object memory n x local p.shared in
    let held_after = λ (o : Obj). return_object-held o x memory n local p.shared in
    let (h, made, counts, current) = held_after x in
    record {
      fresh = λ b above. ap (λ f. f b) counts ∙ v.fresh b (omega arith);
      blocks = blocks-set p.locals i local' p.shared s' v.blocks (omega arith) (λ b e.
          let lt : b < p.shared.made = v.blocks i local here b (sym current ∙ e) in omega arith);
      owners = λ o.
          let (moved, m, c, u) = held_after o in
          let same : constructed o s' ≡ constructed o p.shared =
            ap (λ f. one_if (ltb o.item (f o.block))) counts in
          let enough : one_if (is_same o x) ≤ p.out o = is_same-le p.out x o has in
          let swapped = in_locals-set o p.locals i local local' here in
          elim (Bool-cases done) [
            | inl kept ↦
                let taken : (if done then one_if (is_same o x) else 0) ≡ one_if (is_same o x) =
                  rw kept in
                omega (arith, v.owners o, swapped, moved, same, enough, taken)
            | inr refused ↦
                let taken : (if done then one_if (is_same o x) else 0) ≡ 0 = rw refused in
                omega (arith, v.owners o, swapped, moved, same, taken)
          ];
    }

exit_in-Inv :
    (memory : Bool) (i : ℕ) (local : LocalPool) (p : Pool)
    → get_elem? p.locals i ≡ some local
    → Inv p
    → Inv (exit_in memory i local p)
exit_in-Inv memory i local p here v =
    let s' = delete_local_pool memory local p.shared in
    let (h, made, counts) =
      delete_local_pool-held (record { block = 0; item = 0 }) memory local p.shared in
    record {
      fresh = λ b above. ap (λ f. f b) counts ∙ v.fresh b (omega arith);
      blocks =
          blocks-set p.locals i new_local_pool p.shared s' v.blocks (omega arith)
            (λ b e. absurd (ground arith));
      owners = λ o.
          let (moved, m, c) = delete_local_pool-held o memory local p.shared in
          let same : constructed o s' ≡ constructed o p.shared =
            ap (λ f. one_if (ltb o.item (f o.block))) counts in
          let swapped = in_locals-set o p.locals i local new_local_pool here in
          omega (arith, v.owners o, swapped, moved, same);
    }

Reach-Inv : {n k : ℕ} {p : Pool} → Reach n k p → Inv p
Reach-Inv Reach.start = record {
  fresh = λ b above. refl;
  blocks = λ i local h b e. absurd (ground arith);
  owners = λ o. omega arith;
}
Reach-Inv {n} {k} (Reach.joins {p} r) =
    let v = Reach-Inv r in
    record {
      fresh = v.fresh;
      blocks = blocks-join p.locals p.shared v.blocks;
      owners = λ o. omega (arith, v.owners o);
    }
Reach-Inv {n} {k} (Reach.gets {p} env i local here r) =
    get_in-Inv env n i local p here (Reach-Inv r)
Reach-Inv {n} {k} (Reach.returns {p} memory i x local here has r) =
    return_in-Inv memory k i x local p here has (Reach-Inv r)
Reach-Inv {n} {k} (Reach.exits {p} memory i local here r) =
    exit_in-Inv memory i local p here (Reach-Inv r)

-- Whatever threads get objects, return objects that they hold, and exit, in any order: an object
-- is in at most one place, a hand of a caller, a free list of a thread or a shared chunk, and
-- only if it was made.
pub Reach-owners :
    {n k : ℕ} {p : Pool}
    → Reach n k p
    → (o : Obj)
    → p.out o + in_locals o p.locals + in_chunks o p.shared.free_chunks ≤ constructed o p.shared
Reach-owners r o = (Reach-Inv r).owners o

-- What a reachable pool hands out was in the hands of no caller before.
pub get_object-Reach :
    {n k : ℕ} {p : Pool}
    → Reach n k p
    → (env : PoolEnv) (i : ℕ) (local : LocalPool) (o : Obj) → get_elem? p.locals i ≡ some local
    → (get_object env n local p.shared).result ≡ some o
    → p.out o ≡ 0
get_object-Reach {n} {k} {p} r env i local o here got =
    let g = get_object env n local p.shared in
    let after = Reach-owners (Reach.gets env i local here r) o in
    let one : handed o (get_object env n local p.shared).result ≡ 1 =
      ap (handed o) got ∙ is_same_self o in
    let most : constructed o g.shared ≤ 1 = one_if-le (ltb o.item (g.shared.item_count o.block)) in
    omega (arith, after, one, most)
