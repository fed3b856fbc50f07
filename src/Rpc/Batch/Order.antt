-- ===== src/Rpc/Batch/Order.antt =====
-- The batched read of src/rpc.rs gives the same as a read of all addresses at once, in any order of
-- the tasks.
use y_delta_crankers.Base.{
  ℕ, zero, suc, ◌+◌, ◌-◌, ◌*◌, ◌/◌, ◌≤◌, ◌<◌, ◌≡◌, ◌⊎◌, inl, inr, refl, ap, subst, ◌∙◌, min, List,
  [], ◌∷◌, Option, none, some, drop, length, replicate, map, get_elem?, length-take, length-drop,
  ltb, Bool-cases, All, arith,
}
use y_delta_crankers.System.Types.{Pubkey, Account}
use y_delta_crankers.System.Env.{Env, History, reply, asked_accounts}
use y_delta_crankers.System.Action.{State, ok, record_event, ◌>>=◌, pure, call, of_reply, of_result}
use y_delta_crankers.Rpc.Batch
use y_delta_crankers.Rpc.Batch.Writes.{
  Within, write_from-out, get_elem?-drop, get_elem?-take, get_elem?-bound, get_elem?-map,
  length-map, same_map,
}

-- The node has one answer for each address, whenever and with whatever others it is asked.
abbrev pub Answers : Env → (Pubkey → Option Account) → Type 0
Answers env account =
    (h : History) (pks : List Pubkey) → env.get_multiple_accounts h pks ≡ reply (map account pks)

abbrev pub IsChunk : ℕ → List ℕ → Type 0
IsChunk k [] = ⊥
IsChunk k (idx ∷ order) = (idx ≡ k) ⊎ IsChunk k order

low_or_high : (i n : ℕ) → (i < n) ⊎ (n ≤ i)
low_or_high i n = elim (Bool-cases (ltb i n)) [
  | inl e ↦ inl (ground (arith, e))
  | inr e ↦ inr (ground (arith, e))
]

module _ (account : Pubkey → Option Account) (addresses : List Pubkey) where
  -- The addresses of this chunk have their answers in the output.
  Filled : List (Option Account) → ℕ → Type 0
  Filled output k =
      (i : ℕ) (pk : Pubkey)
      → get_elem? addresses i ≡ some pk
      → k * 100 ≤ i
      → i < k * 100 + 100
      → get_elem? output i ≡ some (account pk)

  chunk_answers : ℕ → List (Option Account)
  chunk_answers idx = map account (Batch.chunk addresses idx)

  length-chunk_answers :
      (idx : ℕ) → length (chunk_answers idx) ≡ min 100 (length addresses - idx * 100)
  unfolding chunk_answers Batch.chunk
  length-chunk_answers idx =
      length-map account _
      ∙ length-take 100 (drop (idx * 100) addresses)
      ∙ ap (λ n. min 100 n) (length-drop (idx * 100) addresses)

  chunk_answer :
      (idx j : ℕ) (pk : Pubkey)
      → j < 100
      → get_elem? addresses (idx * 100 + j) ≡ some pk
      → get_elem? (chunk_answers idx) j ≡ some (account pk)
  unfolding chunk_answers Batch.chunk
  chunk_answer idx j pk l e =
      get_elem?-map account _ j pk
        (get_elem?-take 100 _ j l ∙ get_elem?-drop (idx * 100) addresses j ∙ e)

  -- An address of the chunk that is written.
  written_inside :
      (idx i : ℕ) (pk : Pubkey) (output out : List (Option Account))
      → Within (idx * 100) (chunk_answers idx) out output
      → get_elem? addresses i ≡ some pk
      → idx * 100 ≤ i
      → i < idx * 100 + 100
      → get_elem? out i ≡ some (account pk)
  unfolding Within
  written_inside idx i pk output out w e low high =
      subst (λ n. get_elem? out n ≡ some (account pk)) (omega (arith, low))
        (w.0 (i - idx * 100)
            (omega (arith, length-chunk_answers idx, get_elem?-bound addresses i pk e, low, high))
          ∙ chunk_answer idx (i - idx * 100) pk (omega (arith, low, high))
              (subst (λ n. get_elem? addresses n ≡ some pk) (omega (arith, low)) e))

  -- The other chunks stay filled.
  Filled-kept :
      (idx k : ℕ) (output out : List (Option Account))
      → Within (idx * 100) (chunk_answers idx) out output
      → Filled output k
      → Filled out k
  unfolding Within Filled
  Filled-kept idx k output out w filled i pk e low high = elim (low_or_high i (idx * 100)) [
    | inl l ↦ w.1 i (inl l) ∙ filled i pk e low high
    | inr l ↦ elim (low_or_high i (idx * 100 + 100)) [
      | inl h ↦ written_inside idx i pk output out w e l h
      | inr h ↦ w.1 i (inr (omega (arith, length-chunk_answers idx, h))) ∙ filled i pk e low high
    ]
  ]

  Filled-new :
      (idx : ℕ) (output out : List (Option Account))
      → Within (idx * 100) (chunk_answers idx) out output
      → Filled out idx
  unfolding Filled
  Filled-new idx output out w i pk e low high = written_inside idx i pk output out w e low high

module _ (env : Env) (account : Pubkey → Option Account) (answers : Answers env account)
    (addresses : List Pubkey) where
  asked_state : ℕ → State → State
  asked_state idx s = record_event (asked_accounts (Batch.chunk addresses idx)) s

  -- One task: its answers are written, and the rest goes on from there.
  join_one :
      (idx : ℕ) (order : List ℕ) (output out : List (Option Account)) (s : State)
      → Batch.write_from (idx * 100) (chunk_answers account addresses idx) output ≡ some out
      → Batch.join_all env addresses (idx ∷ order) output s
        ≡ Batch.join_all env addresses order out (asked_state idx s)
  unfolding Batch.join_all ◌>>=◌ call of_reply of_result pure asked_state chunk_answers
  join_one idx order output out s e = rw (answers s.history (Batch.chunk addresses idx)) (rw e refl)

  -- The tasks of an order that are within the addresses fill their chunks, and keep the others.
  Ends : List ℕ → List (Option Account) → State → Type 0
  Ends order output s =
      (out : List (Option Account)) × (t : State) × (Batch.join_all env addresses order output s
        ≡ (ok out, t))
      × (length out ≡ length addresses)
      × ((k : ℕ)
          → Filled account addresses output k ⊎ IsChunk k order
          → Filled account addresses out k)

  join_none :
      (output : List (Option Account)) (s : State)
      → Batch.join_all env addresses [] output s ≡ (ok output, s)
  unfolding Batch.join_all pure
  join_none output s = refl

  Filled-same :
      (output : List (Option Account)) (k : ℕ)
      → Filled account addresses output k ⊎ IsChunk k []
      → Filled account addresses output k
  Filled-same output k (inl f) = f
  Filled-same output k (inr m) = absurd m

  -- What was filled before a task or in it is filled where its rest begins.
  Filled-next :
      (idx k : ℕ) (order : List ℕ) (output out : List (Option Account))
      → Within (idx * 100) (chunk_answers account addresses idx) out output
      → Filled account addresses output k ⊎ IsChunk k (idx ∷ order)
      → Filled account addresses out k ⊎ IsChunk k order
  Filled-next idx k order output out w (inl f) =
      inl (Filled-kept account addresses idx k output out w f)
  Filled-next idx k order output out w (inr (inl e)) =
      inl (subst (Filled account addresses out) e (Filled-new account addresses idx output out w))
  Filled-next idx k order output out w (inr (inr m)) = inr m

  joined-Ends :
      (order : List ℕ) (output : List (Option Account)) (s : State)
      → All (λ idx. idx * 100 < length addresses) order
      → length output ≡ length addresses
      → Ends order output s
  unfolding Ends
  joined-Ends [] output s inside l = (output, s, join_none output s, l, Filled-same output)
  joined-Ends (idx ∷ order) output s inside l =
      let w =
        write_from-out (idx * 100) (chunk_answers account addresses idx) output
          (omega (arith, length-chunk_answers account addresses idx, l, inside.0)) in
      let rest = joined-Ends order w.0 (asked_state idx s) inside.1 (w.2 ∙ l) in
      (
        rest.0,
        rest.1,
        join_one idx order output w.0 s w.1 ∙ rest.2,
        rest.3,
        λ k f. rest.4 k (Filled-next idx k order output w.0 w.3 f),
      )

  length-replicate : (n : ℕ) (a : Option Account) → length (replicate n a) ≡ n
  length-replicate zero a = refl
  length-replicate (suc n) a = ap suc (length-replicate n a)

  join_all-map :
      (order : List ℕ) (s : State)
      → All (λ idx. idx * 100 < length addresses) order
      → ((k : ℕ) → k * 100 < length addresses → IsChunk k order)
      → (Batch.join_all env addresses order (replicate (length addresses) none) s).0
        ≡ ok (map account addresses)
  unfolding Ends Filled
  join_all-map order s inside covers =
      let end =
        joined-Ends order (replicate (length addresses) none) s inside
          (length-replicate (length addresses) none) in
      ap (λ r. r.0) end.2
      ∙ ap (λ out. ok out)
          (same_map account addresses end.0 end.3 λ i pk e.
            end.4 (i / 100)
              (inr (covers (i / 100) (omega (arith, get_elem?-bound addresses i pk e)))) i pk e
              (omega arith) (omega arith))

-- If the node has one answer for each address, whenever and with whatever others it is asked, then
-- in whatever order the chunks' tasks are answered and joined (each index that begins within the
-- addresses occurs, and no other does), the batched read returns the answers of the addresses in
-- their order, as one read of them all would.
pub batch_get_multiple_accounts-map :
    (env : Env) (account : Pubkey → Option Account) (addresses : List Pubkey) (order : List ℕ)
    (s : State)
    → Answers env account
    → All (λ idx. idx * 100 < length addresses) order
    → ((k : ℕ) → k * 100 < length addresses → IsChunk k order)
    → (Batch.batch_get_multiple_accounts env addresses order s).0 ≡ ok (map account addresses)
unfolding Batch.batch_get_multiple_accounts pure
batch_get_multiple_accounts-map env account [] order s answers inside covers = refl
batch_get_multiple_accounts-map env account (a ∷ addresses) order s answers inside covers =
    join_all-map env account answers (a ∷ addresses) order s inside covers
