-- ===== src/Api/Settings/Updated.antt =====
-- What an accepted update leaves, and what is read of it.
use do_an_tot_nghiep.Base.{ℕ, ◌<◌, ◌≡◌, refl, sym, ap, ◌∙◌, subst, true, Option, none, some, arith}
use do_an_tot_nghiep.Base.Text.{Text}
use do_an_tot_nghiep.Api.ReadThrough.{Replies, read_settings}
use do_an_tot_nghiep.Api.ReadThrough.Fresh.{AreFresh, IsCoherent, read_settings-fresh}
use do_an_tot_nghiep.Api.Settings.{
  SystemSettings, Value, undefined, null, given, Patch, UpdateSettingsDto, SettingRow,
  SettingsStore, Dates, SettingsError, Update, updated, or_current, merge,
  assert_valid_registration_range, to_system_settings, load_settings_from_db, get_all, instant,
  ◌>>=◌, required, or_kept, created, patched_row, patched_instant, upsert, write_row, write_if,
  unless_invalid, update_from, update_settings, session_of, check_range,
}

check_range-ordered :
    (a b : Option ℕ)
    → check_range a b ≡ none
    → (o : ℕ) × (c : ℕ) × (a ≡ some o) × (b ≡ some c) × (o < c)
check_range-ordered none b h = absurd (cc)
check_range-ordered (some o) none h = absurd (cc)
check_range-ordered (some o) (some c) h = (o, c, refl, refl, ground arith)

valid-passed :
    (o : Option SettingsError) (st : SettingsStore) (next : Update × SettingsStore)
    (s : SystemSettings) (st' : SettingsStore)
    → unless_invalid o st next ≡ (updated s, st')
    → (o ≡ none) × (next ≡ (updated s, st'))
valid-passed none st next s st' h = (refl, h)
valid-passed (some e) st next s st' h = absurd (cc)

some_inj : {A : Type 0} {a b : A} → some a ≡ some b → a ≡ b
some_inj h = cc

bind-some :
    {A B : Type 0} (o : Option A) (f : A → Option B) (b : B)
    → (o >>= f) ≡ some b
    → (a : A) × (o ≡ some a) × (f a ≡ some b)
bind-some none f b h = absurd (cc)
bind-some (some a) f b h = (a, refl, h)

required-given : {A : Type 0} (v : Value A) (a : A) → required v ≡ some a → v ≡ given a
required-given undefined a h = absurd (cc)
required-given null a h = absurd (cc)
required-given (given b) a h = ap given (some_inj h)

or_kept-given :
    {A : Type 0} (v : Option (Value A)) (old a : A) → or_current v old ≡ given a → or_kept v old ≡ a
or_kept-given none old a h = cc
or_kept-given (some undefined) old a h = absurd (cc)
or_kept-given (some null) old a h = absurd (cc)
or_kept-given (some (given b)) old a h = cc

updated_inj : {a b : SystemSettings} → updated a ≡ updated b → a ≡ b
updated_inj h = cc

write_if-updated :
    (dates : Dates) (o : Option SettingRow) (st : SettingsStore) (s : SystemSettings)
    (st' : SettingsStore)
    → write_if dates true o st ≡ (updated s, st')
    → (row : SettingRow) × (o ≡ some row)
      × (to_system_settings dates row ≡ s)
      × ((write_row dates true row st).1 ≡ st')
write_if-updated dates none st s st' h = absurd (cc)
write_if-updated dates (some row) st s st' h =
    (row, refl, updated_inj (ap (λ r. r.0) h), ap (λ r. r.1) h)

module _ (dates : Dates) where
  -- What the checked data of `create` are.
  pub record Created (next : UpdateSettingsDto) (row : SettingRow) : Type 0 where
    pub semester : next.current_semester ≡ given row.current_semester
    pub starts : next.semester_start_date ≡ given row.semester_start_date
    pub ends : next.semester_end_date ≡ given row.semester_end_date
    pub opens : instant dates next.registration_open_at ≡ some row.registration_open_at
    pub closes : instant dates next.registration_close_at ≡ some row.registration_close_at
    pub credits : next.max_credits_per_semester ≡ given row.max_credits_per_semester

  pub created-Created :
      (next : UpdateSettingsDto) (row : SettingRow)
      → created dates next ≡ some row
      → Created next row
  created-Created next row h =
      let (a, p, h1) = bind-some (required next.current_semester) _ row h in
      let (b, q, h2) = bind-some (required next.semester_start_date) _ row h1 in
      let (c, r, h3) = bind-some (required next.semester_end_date) _ row h2 in
      let (o, s, h4) = bind-some (instant dates next.registration_open_at) _ row h3 in
      let (t, u, h5) = bind-some (instant dates next.registration_close_at) _ row h4 in
      let (m, v, h6) = bind-some (required next.max_credits_per_semester) _ row h5 in
      subst (Created next) (some_inj h6) (record {
        semester = required-given next.current_semester a p;
        starts = required-given next.semester_start_date b q;
        ends = required-given next.semester_end_date c r;
        opens = s;
        closes = u;
        credits = required-given next.max_credits_per_semester m v;
      })

module _ (dates : Dates) (round : (t : ℕ) → dates.parse (dates.to_iso t) ≡ some t) where
  -- An instant that is kept or changed is the one that the checked value names.
  patched_instant-instant :
      (patch : Option (Value Text)) (at o : ℕ)
      → instant dates (or_current patch (dates.to_iso at)) ≡ some o
      → patched_instant dates patch at ≡ o
  patched_instant-instant none at o h = ground (arith, round at)
  patched_instant-instant (some v) at o h = rw (patched_instant, h) refl

  -- A row that is changed becomes the one that would be created.
  patched_row-Created :
      (patch : Patch) (before row : SettingRow)
      → Created dates (merge (to_system_settings dates before) patch) row
      → patched_row dates patch before ≡ row
  unfolding merge to_system_settings
  patched_row-Created patch before row c = λ i. record {
    current_semester = or_kept-given patch.current_semester _ _ c.semester i;
    semester_start_date = or_kept-given patch.semester_start_date _ _ c.starts i;
    semester_end_date = or_kept-given patch.semester_end_date _ _ c.ends i;
    registration_open_at = patched_instant-instant patch.registration_open_at _ _ c.opens i;
    registration_close_at = patched_instant-instant patch.registration_close_at _ _ c.closes i;
    max_credits_per_semester = or_kept-given patch.max_credits_per_semester _ _ c.credits i;
  }

  abbrev next_of : Patch → Option SettingRow → UpdateSettingsDto
  next_of patch before = merge (load_settings_from_db dates before) patch

  upsert-Created :
      (patch : Patch) (before : Option SettingRow) (row : SettingRow)
      → upsert dates (next_of patch before) patch before ≡ some row
      → Created dates (next_of patch before) row
  unfolding upsert load_settings_from_db
  upsert-Created patch none row h =
      let (new, made, e) = bind-some (created dates (next_of patch none)) _ row h in
      created-Created dates _ row (made ∙ e)
  upsert-Created patch (some old) row h =
      let (new, made, e) = bind-some (created dates (next_of patch (some old))) _ row h in
      let c = created-Created dates _ new made in
      subst (Created dates (next_of patch (some old)))
        (sym (patched_row-Created patch old new c) ∙ some_inj e) c

  -- What an accepted update leaves: a row whose registration opens before it closes, with the patched
  -- fields, which the reply, the cache and the check of the session show.
  pub record Settled (before : Option SettingRow) (patch : Patch) (s : SystemSettings)
      (st : SettingsStore) : Type 0 where
    pub row : SettingRow
    pub stored : st.row ≡ some row
    ordered : row.registration_open_at < row.registration_close_at
    semester :
        or_current patch.current_semester (load_settings_from_db dates before).current_semester
        ≡ given s.current_semester
    starts :
        or_current patch.semester_start_date
          (load_settings_from_db dates before).semester_start_date
        ≡ given s.semester_start_date
    ends :
        or_current patch.semester_end_date (load_settings_from_db dates before).semester_end_date
        ≡ given s.semester_end_date
    credits :
        or_current patch.max_credits_per_semester
          (load_settings_from_db dates before).max_credits_per_semester
        ≡ given s.max_credits_per_semester
    asked_open :
        instant dates (
          or_current patch.registration_open_at
            (load_settings_from_db dates before).registration_open_at)
        ≡ some row.registration_open_at
    asked_close :
        instant dates (
          or_current patch.registration_close_at
            (load_settings_from_db dates before).registration_close_at)
        ≡ some row.registration_close_at
    pub opens : (session_of dates s).registration_open_at ≡ some row.registration_open_at
    pub closes : (session_of dates s).registration_close_at ≡ some row.registration_close_at
    pub cached : IsCoherent (load_settings_from_db dates st.row) st.cache
    pub loaded : load_settings_from_db dates st.row ≡ s

  written-Settled :
      (patch : Patch) (st : SettingsStore) (row : SettingRow) (o c : ℕ)
      → Created dates (next_of patch st.row) row
      → instant dates (next_of patch st.row).registration_open_at ≡ some o
      → instant dates (next_of patch st.row).registration_close_at ≡ some c
      → o < c
      → Settled st.row patch (to_system_settings dates row) (write_row dates true row st).1
  unfolding to_system_settings load_settings_from_db merge
  written-Settled patch st row o c made p q lt = record {
    row = row;
    stored = refl;
    ordered =
        let open_at : row.registration_open_at ≡ o = some_inj (sym made.opens ∙ p) in
        let close_at : row.registration_close_at ≡ c = some_inj (sym made.closes ∙ q) in
        omega arith;
    semester = made.semester;
    starts = made.starts;
    ends = made.ends;
    credits = made.credits;
    asked_open = made.opens;
    asked_close = made.closes;
    opens = round row.registration_open_at;
    closes = round row.registration_close_at;
    cached = refl;
    loaded = refl;
  }

  update_from-Settled :
      (patch : Patch) (st : SettingsStore) (s : SystemSettings) (st' : SettingsStore)
      → update_from dates true patch (load_settings_from_db dates st.row, st) ≡ (updated s, st')
      → Settled st.row patch s st'
  unfolding assert_valid_registration_range
  update_from-Settled patch st s st' h =
      let next = next_of patch st.row in
      let (good, w) =
        valid-passed
          (assert_valid_registration_range dates next.registration_open_at
            next.registration_close_at)
          st _ s st' h in
      let (row, made, settings, left) =
        write_if-updated dates (upsert dates next patch st.row) st s st' w in
      let (o, c, p, q, lt) =
        check_range-ordered (instant dates next.registration_open_at)
          (instant dates next.registration_close_at) good in
      subst (λ t. Settled st.row patch s t) left
        (subst (λ r. Settled st.row patch r (write_row dates true row st).1) settings
          (written-Settled patch st row o c (upsert-Created patch st.row row made) p q lt))

  -- Where a date that toISOString prints is read back as the same instant, every value that Redis
  -- answers in a read, if it answers one, is the current one, the cache is empty or right, and its
  -- write succeeds, an accepted update leaves a row whose registration opens before it closes,
  -- with the values of the properties that the patch has and the former ones of those it has not,
  -- none of which is undefined, and whose instants the session check reads in the settings of the
  -- reply; the cache is right again, and getAll gives the settings of the reply.
  pub update_settings-Settled :
      (replies later : Replies SystemSettings) (patch : Patch) (st : SettingsStore)
      (s : SystemSettings) (st' : SettingsStore)
      → AreFresh (load_settings_from_db dates st.row) replies
      → IsCoherent (load_settings_from_db dates st.row) st.cache
      → update_settings dates replies true patch st ≡ (updated s, st')
      → AreFresh s later
      → Settled st.row patch s st' × ((get_all dates later st').0 ≡ s)
  unfolding update_settings get_all
  update_settings-Settled replies later patch st s st' fresh coherent h fresh' =
      let r =
        read_settings-fresh replies (load_settings_from_db dates st.row) st.cache fresh coherent in
      let here : SettingsStore = record {
        row = st.row;
        cache = (read_settings replies (load_settings_from_db dates st.row) st.cache).1;
      } in
      let settled = update_from-Settled patch here s st' (
        subst (λ current. update_from dates true patch (current, here) ≡ (updated s, st')) r.0 h) in
      let again =
        read_settings-fresh later (load_settings_from_db dates st'.row) st'.cache
          (subst (λ db. AreFresh db later) (sym settled.loaded) fresh') settled.cached in
      (settled, again.0 ∙ settled.loaded)
