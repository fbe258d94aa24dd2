-- ===== src/Scheduler/Mail.antt =====
-- apps/scheduler/src/notification/registration-notification.service.ts: the text and the HTML of the
-- mail. A text is its UTF-16 code units, and an optional text of the code is an Option.
pub mod Escaped
use do_an_tot_nghiep.Base.{
  ℕ, zero, suc, ◌+◌, ◌/◌, ◌%◌, Bool, true, false, ◌&&◌, Option, none, some, List, [], ◌∷◌, ◌++◌,
  if◌then◌else◌, ltb, ◌==◌, map,
}
use do_an_tot_nghiep.Base.Text.{Text, codes}
use do_an_tot_nghiep.Api.Slots.{Slot}

-- `classSection` with its course, as findActiveRegistrationItems selects it.
pub record SectionLine : Type 0 where
  pub section_code : Text
  pub day_of_week : Option ℕ
  pub time_of_day : Option Text
  pub start_period : Option ℕ
  pub end_period : Option ℕ
  pub time_range : Option Text
  pub week_range : Option Text
  pub room : Option Text
  pub course_code : Text
  pub course_name : Text
  pub credits : ℕ

-- An item with its section, and the reason why it failed.
pub record ItemLine : Type 0 where
  pub failure_reason : Option Text
  pub section : Option SectionLine

-- PendingBatch['user']
pub record Student : Type 0 where
  pub student_code : Text
  pub name : Text
  pub email : Text

-- What buildSummary returns.
pub record Summary : Type 0 where
  pub registered_items : List ItemLine
  pub failed_items : List ItemLine
  pub cancelled_items : List ItemLine

-- `text.replace(/x/g, by)`
unfoldable pub replace : ℕ → Text → Text → Text
replace x by [] = []
replace x by (c ∷ cs) = (if c == x then by else c ∷ []) ++ replace x by cs

-- escapeHtml
unfoldable pub escape_html : Text → Text
escape_html value = replace b'\'' (codes "&#39;") (
    replace b'"' (codes "&quot;") (
      replace b'>' (codes "&gt;")
        (replace b'<' (codes "&lt;") (replace b'&' (codes "&amp;") value))))

-- A number in a template: its decimal digits. As many rounds as the number are enough.
pub digits : ℕ → ℕ → Text → Text
digits zero n after = (48 + n % 10) ∷ after
digits (suc rounds) n after =
    let rest = digits rounds (n / 10) ((48 + n % 10) ∷ after) in
    if ltb n 10 then (48 + n % 10) ∷ after else rest

pub decimal : ℕ → Text
decimal n = digits n n []

-- `array.join(separator)`
pub join : Text → List Text → Text
join separator [] = []
join separator (t ∷ []) = t
join separator (t ∷ u ∷ us) = t ++ separator ++ join separator (u ∷ us)

-- `.filter(Boolean)` leaves out null and the empty text.
abbrev part : Text → List Text
part [] = []
part (c ∷ cs) = (c ∷ cs) ∷ []

abbrev optional_part : Option Text → List Text
optional_part none = []
optional_part (some t) = part t

-- `value ? prefix + value : null`, where the empty text and 0 are false.
abbrev labelled : Text → Option Text → List Text
labelled label none = []
labelled label (some []) = []
labelled label (some (c ∷ cs)) = (label ++ c ∷ cs) ∷ []

abbrev day_part : Option ℕ → List Text
day_part none = []
day_part (some d) = if d == 0 then [] else (codes "Thứ " ++ decimal d) ∷ []

abbrev period_part : Option ℕ → Option ℕ → List Text
period_part none e = []
period_part (some s) none = []
period_part (some s) (some e) =
    if s == 0
    then []
    else if e == 0
    then []
    else (codes "Tiết " ++ decimal s ++ codes "-" ++ decimal e) ∷ []

-- formatSchedule
unfoldable pub format_schedule : Option SectionLine → Text
format_schedule none = []
format_schedule (some s) = escape_html (
    join (codes ", ") (
      day_part s.day_of_week
      ++ optional_part s.time_of_day
      ++ period_part s.start_period s.end_period
      ++ optional_part s.time_range
      ++ labelled (codes "Tuần ") s.week_range
      ++ labelled (codes "Phòng ") s.room))

-- `section?.field ?? ''`
abbrev pub text_of : (SectionLine → Text) → Option SectionLine → Text
text_of field none = []
text_of field (some s) = field s

abbrev pub or_unknown : Option Text → Text
or_unknown none = codes "Không rõ lỗi"
or_unknown (some t) = t

abbrev pub concat : List Text → Text
concat [] = []
concat (t ∷ ts) = t ++ concat ts

abbrev pub unless_empty : {A : Type 0} → List A → Text → Text → Text
unless_empty [] when_empty t = when_empty
unless_empty (x ∷ xs) when_empty t = t

abbrev registered_line : ItemLine → Text
registered_line i =
    codes "- "
    ++ text_of (λ s. s.section_code) i.section
    ++ codes " | "
    ++ text_of (λ s. s.course_code) i.section
    ++ codes " - "
    ++ text_of (λ s. s.course_name) i.section

abbrev failed_line : ItemLine → Text
failed_line i =
    codes "- "
    ++ text_of (λ s. s.section_code) i.section
    ++ codes " | "
    ++ text_of (λ s. s.course_code) i.section
    ++ codes ": "
    ++ or_unknown i.failure_reason

-- renderText
pub render_text : Student → Text → Slot → Summary → Text
render_text user semester slot summary = join (codes "\n") (
    (codes "Xin chào " ++ user.name ++ codes ",")
    ∷ (codes "Kết quả đăng ký học phần kỳ " ++ semester ++ codes ".")
    ∷ (codes "Khung đăng ký: "
        ++ slot.start_date
        ++ codes " đến "
        ++ slot.end_date
        ++ codes ", "
        ++ slot.start_time
        ++ codes " đến "
        ++ slot.end_time
        ++ codes " mỗi ngày.")
    ∷ []
    ∷ codes "Lớp đang đăng ký thành công:"
    ∷ unless_empty summary.registered_items (codes "Chưa có lớp đăng ký thành công.")
        (join (codes "\n") (map registered_line summary.registered_items))
    ∷ []
    ∷ codes "Mục thất bại cần lưu ý:"
    ∷ unless_empty summary.failed_items
        (codes "Không có mục thất bại trong các batch chưa thông báo.")
        (join (codes "\n") (map failed_line summary.failed_items))
    ∷ [])
