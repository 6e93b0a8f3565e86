-- ===== src/ChannelContext/Lifetime/Restart.antt =====
-- What a bot that is started again knows of the one before.
use ash_bot.Prelude.{
  ℕ, ◌≡◌, refl, ◌<◌, Bool, true, false, Option, none, some, List, [], ◌∷◌, Bytes, length, lt→ltb,
}
use ash_bot.Prelude.Int.{ℤ}
use ash_bot.Outcome.{done}
use ash_bot.Db.Params.{fill_int, fill_chars}
use ash_bot.Db.Results.{DbResult, db_result, read_chars}
use ash_bot.World.{Env, Event, queried}
use ash_bot.TwitchUser.{username_max_length}
use ash_bot.SongRequest.Provider.{Provider, new_provider}
use ash_bot.SongRequest.Provider.Config.{
  chain, LexicalCast, sql_load_config, sql_load_limits, returned, load_limits, sql_update_value,
  read_options, apply_options, load_config, set_enabled, initialize,
}
use ash_bot.Irc.Connection.{new_connection}
use ash_bot.Commands.Factory.{register_commands}
use ash_bot.ChannelContext.Lifetime.{BotState, new_context, opened_context, new_bot}

-- The answer to the query for the configuration.
abbrev pub config_row : Env → List Event → DbResult
config_row env h = db_result (env.result (queried sql_load_config [] ∷ h))

-- The answer to the query for the limits of users that follows.
abbrev limits_row : Env → List Event → DbResult
limits_row env h =
    db_result (env.result (queried sql_load_limits [] ∷ queried sql_load_config [] ∷ h))

chain-some :
    {A : Type 0} (o : Option A) (f : A → Option Provider) {q : Provider}
    → chain o f ≡ some q
    → (a : A) × (o ≡ some a) × (f a ≡ some q)
chain-some none f h = cc
chain-some (some a) f h = (a, refl, h)

-- The first option is the first member.
apply_options-enabled :
    (cast : LexicalCast) (p q : Provider) (o0 o1 o2 o3 o4 o5 o6 o7 : Bytes) (b : Bool)
    → cast.to_bool o0 ≡ some b
    → apply_options cast p (o0 ∷ o1 ∷ o2 ∷ o3 ∷ o4 ∷ o5 ∷ o6 ∷ o7 ∷ []) ≡ some q
    → q.enabled ≡ b
unfolding apply_options
apply_options-enabled cast p q o0 o1 o2 o3 o4 o5 o6 o7 b known h =
    let (a0, e0, h0) = chain-some (cast.to_bool o0) _ h in
    let (a1, e1, h1) = chain-some (cast.to_bool o1) _ h0 in
    let (a2, e2, h2) = chain-some (cast.to_int o2) _ h1 in
    let (a3, e3, h3) = chain-some (cast.to_int o3) _ h2 in
    let (a4, e4, h4) = chain-some (cast.to_int o4) _ h3 in
    let (a5, e5, h5) = chain-some (cast.to_int o5) _ h4 in
    let (a6, e6, h6) = chain-some (cast.to_int o6) _ h5 in
    let (a7, e7, h7) = chain-some (cast.to_int o7) _ h6 in cc (h7, e0, known)

-- The provider that load_config leaves where it reads these options.
loaded_provider : Env → List Event → Provider → Provider
loaded_provider env h q = record q {
  custom_limits = load_limits (limits_row env h) (limits_row env h).row_count 0 q.custom_limits;
}

initialize-loads :
    (cast : LexicalCast) (env : Env) (p q : Provider) (options : List Bytes) (h : List Event)
    → (config_row env h).row_count ≡ 8
    → read_options (config_row env h) 8 0 ≡ some options
    → apply_options cast p options ≡ some q
    → (initialize cast env p h).0 ≡ (returned true (loaded_provider env h q), true)
unfolding initialize load_config loaded_provider read_chars
initialize-loads cast env p q options h eight read applied =
    rw (eight, initialize, load_config, read, applied) refl

-- A bot around a context whose configuration was read.
abbrev bot_with : (ℕ → ℕ → Bool) → ℕ → Bytes → Bool → Provider → BotState
bot_with same_bucket now channel worker p = record {
  live = record {
    context = record {
      creators = register_commands same_bucket;
      ignore_plebs = false;
      provider = p;
    };
    channel = channel;
    second_timer = true;
    worker = worker;
  };
  client = new_connection now;
}

new_bot-starts :
    (same_bucket : ℕ → ℕ → Bool) (now : ℕ) (env : Env) (cast : LexicalCast) (max_length : ℤ)
    (channel : Bytes) (p : Provider) (ok worker : Bool) (h : List Event)
    → length channel < username_max_length
    → (initialize cast env (new_provider max_length) h).0 ≡ (returned ok p, worker)
    → (new_bot same_bucket now env cast max_length channel h).0
      ≡ done (bot_with same_bucket now channel worker p)
unfolding new_bot new_context opened_context
new_bot-starts same_bucket now env cast max_length channel p ok worker h short e =
    rw (lt→ltb (length channel) username_max_length short, new_bot, new_context, e) refl

-- A bot that was told to turn song requests on or off, and is then started again on a database that
-- has what set_enabled wrote as the first option, and seven others that can be read, has them on or
-- off as it was told, and its worker runs.
pub set_enabled-restart :
    (cast : LexicalCast) (env : Env) (same_bucket : ℕ → ℕ → Bool) (now : ℕ) (max_length : ℤ)
    (channel : Bytes) (b : Bool) (p q : Provider) (h : List Event) (o1 o2 o3 o4 o5 o6 o7 : Bytes)
    → cast.to_bool (cast.of_bool b) ≡ some b
    → length channel < username_max_length
    → let k =
        queried sql_update_value ((fill_chars (cast.of_bool b)).0 ∷ (fill_int 2 0).0 ∷ []) ∷ h in
      let options = cast.of_bool b ∷ o1 ∷ o2 ∷ o3 ∷ o4 ∷ o5 ∷ o6 ∷ o7 ∷ [] in
      (config_row env k).row_count ≡ 8
      → read_options (config_row env k) 8 0 ≡ some options
      → apply_options cast (new_provider max_length) options ≡ some q
      → ((set_enabled cast env b p h).1 ≡ k)
        × ((s : BotState) × ((new_bot same_bucket now env cast max_length channel k).0 ≡ done s)
            × (s.live.context.provider.enabled ≡ b)
            × (s.live.worker ≡ true))
unfolding set_enabled loaded_provider
set_enabled-restart cast env same_bucket now max_length channel b p q h o1 o2 o3 o4 o5 o6 o7 law
      short eight read applied =
    let k =
      queried sql_update_value ((fill_chars (cast.of_bool b)).0 ∷ (fill_int 2 0).0 ∷ []) ∷ h in
    let options = cast.of_bool b ∷ o1 ∷ o2 ∷ o3 ∷ o4 ∷ o5 ∷ o6 ∷ o7 ∷ [] in
    (
      refl,
      (
        bot_with same_bucket now channel true (loaded_provider env k q),
        new_bot-starts same_bucket now env cast max_length channel (loaded_provider env k q) true
            true k short
            (initialize-loads cast env (new_provider max_length) q options k eight read applied),
        apply_options-enabled cast (new_provider max_length) q (cast.of_bool b) o1 o2 o3 o4 o5 o6 o7
            b law applied,
        refl,
      ),
    )
