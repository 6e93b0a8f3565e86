-- ===== src/Commands/Factory/Lookup.antt =====
-- Which keywords create a command.
use ash_bot.Prelude.{
  ℕ, ◌≡◌, refl, sym, ◌∙◌, Bool, true, false, some, List, [], ◌∷◌, Bytes, All, stricmp_eq, ==_refl,
  lower, Bool-cases, inl, inr,
}
use ash_bot.Commands.Traits.{CommandClass}
use ash_bot.Commands.Factory.{
  CreatorMap, cstr_hash, same_key, set_creator, register_command, create_command,
}

stricmp_eq_refl : (s : Bytes) → stricmp_eq s s ≡ true
unfolding stricmp_eq
stricmp_eq_refl [] = refl
stricmp_eq_refl (c ∷ s) = rw (==_refl (lower c), stricmp_eq_refl s)

module _ (same_bucket : ℕ → ℕ → Bool) (one_bucket : (h : ℕ) → same_bucket h h ≡ true) where
  same_key_refl : (key : Bytes) → same_key same_bucket key key ≡ true
  unfolding same_key
  same_key_refl key = rw (one_bucket (cstr_hash key), stricmp_eq_refl key)

  create_command-set_creator :
      (key : Bytes) (cls : CommandClass) (m : CreatorMap)
      → create_command same_bucket (set_creator same_bucket key cls m) key ≡ some cls
  unfolding create_command set_creator
  create_command-set_creator key cls [] = rw (same_key_refl key)
  create_command-set_creator key cls ((k, c) ∷ m) = elim (Bool-cases (same_key same_bucket k key)) [
    | inl e ↦ rw (e, create_command, e) refl
    | inr e ↦ rw (e, create_command, e, create_command-set_creator key cls m) refl
  ]

  create_command-cons :
      (key k : Bytes) (c : CommandClass) (m : CreatorMap)
      → (same_key same_bucket k key ≡ true → create_command same_bucket ((k, c) ∷ m) key ≡ some c)
        × (same_key same_bucket k key ≡ false
            → create_command same_bucket ((k, c) ∷ m) key ≡ create_command same_bucket m key)
  unfolding create_command
  create_command-cons key k c m = (λ e. rw e refl, λ e. rw e refl)

  -- A keyword of a class keeps it when the class gets another one.
  create_command-set_creator_kept :
      (key other : Bytes) (cls : CommandClass) (m : CreatorMap)
      → create_command same_bucket m key ≡ some cls
      → create_command same_bucket (set_creator same_bucket other cls m) key ≡ some cls
  unfolding create_command set_creator
  create_command-set_creator_kept key other cls ((k, c) ∷ m) e =
      let found = create_command-cons key k c m in
      let later = create_command-set_creator_kept key other cls m in
      elim (Bool-cases (same_key same_bucket k other)) [
        | inl hit ↦ elim (Bool-cases (same_key same_bucket k key)) [
          | inl same ↦ rw (hit, create_command, same) refl
          | inr not_same ↦ rw (hit, create_command, not_same) (sym (found.1 not_same) ∙ e)
        ]
        | inr miss ↦ elim (Bool-cases (same_key same_bucket k key)) [
          | inl same ↦ rw (miss, create_command, same) (sym (found.0 same) ∙ e)
          | inr not_same ↦ rw (miss, create_command, not_same) (later (sym (found.1 not_same) ∙ e))
        ]
      ]
  create_command-set_creator_kept key other cls [] e = cc

  create_command-register_kept :
      (key : Bytes) (cls : CommandClass) (ks : List Bytes) (m : CreatorMap)
      → create_command same_bucket m key ≡ some cls
      → create_command same_bucket (register_command same_bucket cls ks m) key ≡ some cls
  unfolding register_command
  create_command-register_kept key cls [] m e = e
  create_command-register_kept key cls (k ∷ ks) m e =
      create_command-register_kept key cls ks (set_creator same_bucket k cls m)
        (create_command-set_creator_kept key k cls m e)

  -- Every keyword that a command is registered under creates it, whatever was registered before, if
  -- the map has one bucket for equal hashes.
  pub create_command-register :
      (cls : CommandClass) (ks : List Bytes) (m : CreatorMap)
      → All
          (λ k. create_command same_bucket (register_command same_bucket cls ks m) k ≡ some cls)
          ks
  unfolding register_command
  create_command-register cls [] m = tt
  create_command-register cls (k ∷ ks) m = (
    create_command-register_kept k cls ks (set_creator same_bucket k cls m)
        (create_command-set_creator k cls m),
    create_command-register cls ks (set_creator same_bucket k cls m),
  )
