-- ===== src/SongRequest/Song/Links.antt =====
-- What parse_link makes of the links of the three sites, under an engine that knows the groups of a pattern.
use ash_bot.Prelude.{
  Bool, true, false, ◌≡◌, ◌≢◌, refl, Option, none, some, Bytes, codes, contains, Bool-cases,
  Option-cases, inl, inr,
}
use ash_bot.Partial.{undefined, Holds, Holds-bind, Holds-if}
use ash_bot.Regex.{Match, Engine, IsGrouped}
use ash_bot.SongRequest.Song.{
  Song, vimeo, assigned, vimeo_id, youtube_id, youtube_id_v, try_process_youtube_link,
  try_process_soundcloud_link, try_process_vimeo_link, parse_link,
}

module _ (e : Engine) (link : Bytes) (vimeo_law : IsGrouped e vimeo_id link)
    (v_law : IsGrouped e youtube_id_v link) (s : Song) where
  -- A Vimeo link whose number is found is read through the null pointer of a group that the
  -- pattern does not have.
  vimeo_undefined :
      (m : Match)
      → contains (codes "vimeo") link ≡ true
      → e.regex_search vimeo_id link ≡ some m
      → try_process_vimeo_link e link s ≡ undefined
  unfolding try_process_vimeo_link
  vimeo_undefined m site found =
      rw (site, try_process_vimeo_link, found, vimeo_law.search_group m 0 refl found)

  -- A link in which only the second YouTube pattern finds an identifier is read through the null
  -- pointer of a group that the pattern does not have, under an engine that knows its groups.
  pub youtube_v_undefined :
      (m : Match)
      → e.regex_match youtube_id link ≡ none
      → e.regex_search youtube_id_v link ≡ some m
      → parse_link e link s ≡ undefined
  unfolding parse_link
  youtube_v_undefined m other found =
      rw (other, parse_link, try_process_youtube_link, found, v_law.search_group m 0 refl found)

  abbrev NotVimeo : Bool × Song → Type 0
  NotVimeo r = r.1.source ≢ vimeo

  youtube-NotVimeo : s.source ≢ vimeo → Holds NotVimeo (try_process_youtube_link e link s)
  unfolding try_process_youtube_link
  youtube-NotVimeo fresh = elim (Option-cases (e.regex_match youtube_id link)) [
    | inr (m, found) ↦
        rw (found, try_process_youtube_link)
          (Holds-bind (λ _. Unit {0}) NotVimeo (assigned (m.first 1)) _ (anything (m.first 1))
            (λ id _ e. cc))
    | inl other ↦ elim (Option-cases (e.regex_search youtube_id_v link)) [
      | inl nothing ↦ rw (other, try_process_youtube_link, nothing) fresh
      | inr (m, found) ↦
          rw (other, try_process_youtube_link, found, v_law.search_group m 0 refl found) tt
    ]
  ]
    where
      anything : (id : Option Bytes) → Holds (λ _. Unit {0}) (assigned id)
      anything none = tt
      anything (some id) = tt

  vimeo-Refused : Holds (λ r. (r.0 ≡ false) × (r.1 ≡ s)) (try_process_vimeo_link e link s)
  unfolding try_process_vimeo_link
  vimeo-Refused = elim (Bool-cases (contains (codes "vimeo") link)) [
    | inl site ↦ elim (Option-cases (e.regex_search vimeo_id link)) [
      | inl nothing ↦ rw (site, try_process_vimeo_link, nothing) (refl, refl)
      | inr (m, found) ↦ rw (vimeo_undefined m site found) tt
    ]
    | inr other ↦ rw (other, try_process_vimeo_link) (refl, refl)
  ]

module _ (e : Engine) (link : Bytes) (vimeo_law : IsGrouped e vimeo_id link)
    (v_law : IsGrouped e youtube_id_v link) where
  soundcloud-NotVimeo :
      (s : Song) → s.source ≢ vimeo → (try_process_soundcloud_link e link s).1.source ≢ vimeo
  unfolding try_process_soundcloud_link
  soundcloud-NotVimeo s fresh = elim (Bool-cases (contains (codes "soundcloud") link)) [
    | inl site ↦ rw (site, try_process_soundcloud_link) (λ e. cc)
    | inr other ↦ rw (other, try_process_soundcloud_link) fresh
  ]

  -- No link makes a song of another site one of Vimeo, under an engine that knows which groups the
  -- patterns have: where parse_link returns, the song has another source.
  pub parse_link-ne-vimeo :
      (s : Song) → s.source ≢ vimeo → Holds (λ (s' : Song). s'.source ≢ vimeo) (parse_link e link s)
  unfolding parse_link
  parse_link-ne-vimeo s fresh =
      Holds-bind (λ (r : Bool × Song). r.1.source ≢ vimeo) _ (try_process_youtube_link e link s) _
        (youtube-NotVimeo e link vimeo_law v_law s fresh)
        λ r h.
          Holds-if _ r.0 _ _ (λ _. h)
            λ _.
              Holds-if _ (try_process_soundcloud_link e link r.1).0 _ _
                (λ _. soundcloud-NotVimeo r.1 h)
                λ _.
                  Holds-bind _ _ (try_process_vimeo_link e link r.1) _
                    (vimeo-Refused e link vimeo_law v_law r.1) λ x refused. rw refused.0 (λ e. cc)
