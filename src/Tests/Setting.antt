-- ===== src/Tests/Setting.antt =====
-- A database, a site and a provider that the runs share.
use ash_bot.Prelude.{ℕ, true, false, none, some, [], Bytes, codes, length}
use ash_bot.Prelude.Int.{pos}
use ash_bot.Db.Results.{PgResult, tuples_ok}
use ash_bot.World.{Env}
use ash_bot.TwitchUser.{TwitchUser}
use ash_bot.Irc.Enums.{ReceiveType}
use ash_bot.Irc.Message.{MessageData}
use ash_bot.SongRequest.Provider.{Provider, SongRequestItem, new_provider, new_song_action}

-- `rows` rows of one and the same cell
abbrev pub table : ℕ → Bytes → PgResult
table rows cell = record {
  status = tuples_ok;
  ntuples = rows;
  getvalue = λ row column. some cell;
  getlength = λ row column. length cell;
  getisnull = λ row column. false;
}

abbrev pub answers : ℕ → Bytes → Env
answers rows cell = record {
  result = λ h. table rows cell;
  response =
      λ h. record { error = false; status_code = pos 200; data_ = codes "{}"; redirect_url = [] };
}

abbrev pub viewer : TwitchUser
viewer = record {
  id = pos 7;
  username = codes "viewer";
  display_name = codes "Viewer";
  moderator = false;
  subscriber = false;
}

abbrev pub wish : SongRequestItem
wish = record {
  link = codes "dQw4w9WgXcQ";
  requested_by = viewer;
  id = pos 0;
  action = new_song_action;
  extra_data = [];
}

abbrev pub open_provider : Provider
open_provider = record (new_provider (pos 600)) { enabled = true }

abbrev pub fresh_data : MessageData
fresh_data = record {
  user = none;
  message = [];
  receive_type = ReceiveType.unknown;
  reply_code = pos 0;
  tags = [];
}
