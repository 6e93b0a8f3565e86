-- ===== src/Commands/Factory.antt =====
-- include/commands/command_factory.h and command_registration.cpp: the classes of commands by their
-- keywords, in a std::unordered_map.
pub mod Lookup
use Prim.Native.Nat.{bit_xor}
use ash_bot.Prelude.{
  ℕ, zero, suc, ◌+◌, ◌*◌, ◌/◌, ◌%◌, ◌^◌, Bool, ◌&&◌, Option, none, some, List, [], ◌∷◌, Bytes,
  codes, stricmp_eq, if◌then◌else◌,
}
use ash_bot.Prelude.Int.{signed, pattern_of}
use ash_bot.Commands.Traits.{CommandClass, hello_command, songrequest_command}

abbrev fnv_offset_basis : ℕ
fnv_offset_basis = 14695981039346656037

abbrev fnv_prime : ℕ
fnv_prime = 1099511628211

-- The loop of cstr_hash; a `char` is signed.
pub hash_from : ℕ → Bytes → ℕ
hash_from val [] = val
hash_from val (c ∷ pc) =
    hash_from ((bit_xor val (pattern_of 64 (signed 8 c)) * fnv_prime) % 2 ^ 64) pc

-- cstr_hash
unfoldable pub cstr_hash : Bytes → ℕ
unfolding hash_from
cstr_hash = hash_from fnv_offset_basis

-- cstr_equal
abbrev pub cstr_equal : Bytes → Bytes → Bool
cstr_equal = stricmp_eq

abbrev pub CreatorMap : Type 0
CreatorMap = List (Bytes × CommandClass)

-- `same_bucket` tells of two hashes whether the map has one bucket for them.
module _ (same_bucket : ℕ → ℕ → Bool) where
  -- What the map takes for the same key.
  unfoldable pub same_key : Bytes → Bytes → Bool
  same_key k key = same_bucket (cstr_hash k) (cstr_hash key) && cstr_equal k key

  -- `creatorMap_[pKeyword] = make_command<_Command>`
  unfoldable pub set_creator : Bytes → CommandClass → CreatorMap → CreatorMap
  set_creator key cls [] = (key, cls) ∷ []
  set_creator key cls ((k, c) ∷ creators) =
      if same_key k key then (k, cls) ∷ creators else (k, c) ∷ set_creator key cls creators

  unfoldable pub register_command : CommandClass → List Bytes → CreatorMap → CreatorMap
  unfolding set_creator
  register_command cls [] creators = creators
  register_command cls (k ∷ keywords) creators =
      register_command cls keywords (set_creator k cls creators)

  -- create_command: `none` is the null pointer
  unfoldable pub create_command : CreatorMap → Bytes → Option CommandClass
  create_command [] key = none
  create_command ((k, c) ∷ creators) key =
      if same_key k key then some c else create_command creators key

  -- register_commands: the map of a new channel
  unfoldable pub register_commands : CreatorMap
  unfolding register_command
  register_commands =
      register_command songrequest_command
        (codes "songrequest"
          ∷ codes "sr"
          ∷ codes "requestsong"
          ∷ codes "srq"
          ∷ codes "ohgodohgodohgod"
          ∷ [])
        (register_command hello_command (codes "hello" ∷ []) [])
