-- ===== src/SongRequest/Provider/Queue/Tracked.antt =====
-- No request is lost, and none is there twice.
use mathlib.Core.List.{Perm, perm_middle, append_assoc}
use mathlib.Core.List.Perm
use ash_bot.Prelude.{
  ℕ, zero, suc, ◌^◌, ◌<◌, arith, ◌≡◌, refl, some, List, [], ◌∷◌, ◌++◌, map, Option-cases, inl, inr,
}
use ash_bot.Prelude.Int.{ℤ, pos}
use ash_bot.Pick.{pick, pick-Perm}
use ash_bot.SongRequest.Provider.{SongRequestItem, next_id, make_item, put_item}
use ash_bot.SongRequest.Provider.Queue.{
  Requests, RequestStep, make, put, take_out, request_step, request_steps,
}

-- All requests that there are.
abbrev pub all_items : Requests → List SongRequestItem
all_items s = s.made ++ (s.provider.items ++ s.taken)

-- The number behind n others.
abbrev pub id_after : ℕ → ℤ
id_after zero = pos 0
id_after (suc n) = next_id (id_after n)

-- The first n numbers.
abbrev pub ids_below : ℕ → List ℤ
ids_below zero = []
ids_below (suc n) = id_after n ∷ ids_below n

-- The numbers are 0, 1, 2 and so on, as far as an int64_t goes.
pub id_after-small : (n : ℕ) → n < 2 ^ 63 → id_after n ≡ pos n
id_after-small zero h = refl
id_after-small (suc n) h = rw (id_after-small n (omega arith)) (ground arith)

-- Every number that was given out is that of one request, as often as it was given out.
pub record IsTracked (s : Requests) : Type 0 where
  pub count : ℕ
  pub counter : s.provider.local_id ≡ id_after count
  pub each_once : Perm (map (λ i. i.id) (all_items s)) (ids_below count)

-- Moving requests about.
moved :
    (s s' : Requests)
    → s'.provider.local_id ≡ s.provider.local_id
    → Perm (all_items s') (all_items s)
    → IsTracked s
    → IsTracked s'
moved s s' same p t = record {
  count = t.count;
  counter = rw same t.counter;
  each_once = Perm.trans (Perm.map (λ i. i.id) p) t.each_once;
}

put-Perm :
    (n : ℕ) (s : Requests) (item : SongRequestItem) (rest : List SongRequestItem)
    → pick n s.made ≡ some (item, rest)
    → Perm (rest ++ ((s.provider.items ++ item ∷ []) ++ s.taken)) (all_items s)
put-Perm n s item rest e =
    let others = s.provider.items ++ s.taken in
    rw (append_assoc s.provider.items (item ∷ []) s.taken) (
      Perm.trans (Perm.append_left rest (perm_middle s.provider.items s.taken)) (
        Perm.trans (perm_middle rest others)
          (Perm.symm (Perm.append_right others (pick-Perm n s.made item rest e)))))

take_out-Perm :
    (n : ℕ) (s : Requests) (item : SongRequestItem) (rest : List SongRequestItem)
    → pick n s.provider.items ≡ some (item, rest)
    → Perm (s.made ++ (rest ++ item ∷ s.taken)) (all_items s)
take_out-Perm n s item rest e = Perm.append_left s.made (
    Perm.trans (perm_middle rest s.taken)
      (Perm.symm (Perm.append_right s.taken (pick-Perm n s.provider.items item rest e))))

request_step-IsTracked :
    (step : RequestStep) (s : Requests) → IsTracked s → IsTracked (request_step step s)
unfolding request_step make_item put_item
request_step-IsTracked (make user link) s t = record {
  count = suc t.count;
  counter = rw t.counter refl;
  each_once = rw t.counter (Perm.cons (id_after t.count) t.each_once);
}
request_step-IsTracked (put n) s t = elim (Option-cases (pick n s.made)) [
  | inl e ↦ rw (e, request_step) t
  | inr ((item, rest), e) ↦
      rw (e, request_step)
        (moved s (record s { provider = put_item item s.provider; made = rest }) refl
          (put-Perm n s item rest e) t)
]
request_step-IsTracked (take_out n) s t = elim (Option-cases (pick n s.provider.items)) [
  | inl e ↦ rw (e, request_step) t
  | inr ((item, rest), e) ↦
      rw (e, request_step)
        (moved s
          (record s { provider = record s.provider { items = rest }; taken = item ∷ s.taken }) refl
          (take_out-Perm n s item rest e) t)
]

-- However the steps of the threads and of the worker interleave: the numbers given out so far are
-- those of the requests in the hands of a thread, in the queue and taken by the worker, each as often
-- as it was given out, so that no request is lost and none is served twice.
pub request_steps-IsTracked :
    (steps : List RequestStep) (s : Requests) → IsTracked s → IsTracked (request_steps steps s)
unfolding request_steps
request_steps-IsTracked [] s t = t
request_steps-IsTracked (step ∷ steps) s t =
    request_steps-IsTracked steps (request_step step s) (request_step-IsTracked step s t)
