-- ===== src/Scheduler/Html/Markup.antt =====
-- The markup of the mail.
use do_an_tot_nghiep.Base.{
  ◌≡◌, refl, sym, ◌∙◌, Option, none, some, List, [], ◌∷◌, filter, filter-append, map, arith,
}
use do_an_tot_nghiep.Base.Text.{Text}
use do_an_tot_nghiep.Api.Slots.{Slot}
use do_an_tot_nghiep.Scheduler.Mail.{
  SectionLine, ItemLine, Student, Summary, format_schedule, decimal, text_of, concat, or_unknown,
}
use do_an_tot_nghiep.Scheduler.Mail.Escaped.{is_markup, escape_html-markup, decimal-markup}
use do_an_tot_nghiep.Scheduler.Html.{
  cell, registered_pieces, failed_pieces, page_pieces, registered_tr, failed_tr, registered_rows,
  failed_rows, render_html,
}

abbrev pub markup : Text → Text
markup t = filter is_markup t

-- Piece by piece, two lists of texts have the same markup.
abbrev SameMarkup : List Text → List Text → Type 0
SameMarkup [] [] = Unit
SameMarkup [] (u ∷ us) = ⊥
SameMarkup (t ∷ ts) [] = ⊥
SameMarkup (t ∷ ts) (u ∷ us) = (markup t ≡ markup u) × SameMarkup ts us

concat-SameMarkup : (ts us : List Text) → SameMarkup ts us → markup (concat ts) ≡ markup (concat us)
concat-SameMarkup [] [] h = refl
concat-SameMarkup [] (u ∷ us) h = elim h [ ]
concat-SameMarkup (t ∷ ts) [] h = elim h [ ]
concat-SameMarkup (t ∷ ts) (u ∷ us) h =
    rw
      (
        filter-append is_markup t (concat ts),
        filter-append is_markup u (concat us),
        h.0,
        concat-SameMarkup ts us h.1,
      )
      refl

abbrev pub nobody : Student
nobody = record { student_code = []; name = []; email = [] }

abbrev no_item : ItemLine
no_item = record { failure_reason = some []; section = none }

-- As many rows, with nothing in them.
abbrev pub blank : Summary → Summary
blank s = record {
  registered_items = map (λ _. no_item) s.registered_items;
  failed_items = map (λ _. no_item) s.failed_items;
  cancelled_items = [];
}

abbrev pub no_slot : Slot
no_slot = record {
  id = 0;
  semester = [];
  name = none;
  student_code_from = [];
  student_code_to = [];
  start_date = [];
  end_date = [];
  start_time = [];
  end_time = [];
}

-- The dates and times of the slot, which the mail takes as they are, have no such character.
pub record IsPlain (s : Slot) : Type 0 where
  pub start_date : markup s.start_date ≡ []
  pub end_date : markup s.end_date ≡ []
  pub start_time : markup s.start_time ≡ []
  pub end_time : markup s.end_time ≡ []

cell-markup : (field : SectionLine → Text) (i : ItemLine) → markup (cell field i) ≡ []
unfolding cell
cell-markup field i = escape_html-markup (text_of field i.section)

format_schedule-markup : (o : Option SectionLine) → markup (format_schedule o) ≡ []
unfolding format_schedule
format_schedule-markup none = refl
format_schedule-markup (some s) = escape_html-markup _

credits-markup : (o : Option SectionLine) → markup (text_of (λ s. decimal s.credits) o) ≡ []
credits-markup none = refl
credits-markup (some s) = decimal-markup s.credits

registered_tr-markup : (i : ItemLine) → markup (registered_tr i) ≡ markup (registered_tr no_item)
unfolding registered_tr
registered_tr-markup i = concat-SameMarkup (registered_pieces i) (registered_pieces no_item) (
    ground (
      arith,
      same (λ s. s.section_code),
      same (λ s. s.course_code),
      same (λ s. s.course_name),
      credits-markup i.section,
      format_schedule-markup i.section,
      format_schedule-markup none,
    ))
  where
    same : (field : SectionLine → Text) → markup (cell field i) ≡ markup (cell field no_item)
    same field = cell-markup field i ∙ sym (cell-markup field no_item)

failed_tr-markup : (i : ItemLine) → markup (failed_tr i) ≡ markup (failed_tr no_item)
unfolding failed_tr
failed_tr-markup i = concat-SameMarkup (failed_pieces i) (failed_pieces no_item) (
    ground (
      arith,
      same (λ s. s.section_code),
      same (λ s. s.course_code),
      same (λ s. s.course_name),
      escape_html-markup (or_unknown i.failure_reason),
      escape_html-markup [],
    ))
  where
    same : (field : SectionLine → Text) → markup (cell field i) ≡ markup (cell field no_item)
    same field = cell-markup field i ∙ sym (cell-markup field no_item)

rows-SameMarkup :
    (row : ItemLine → Text)
    → ((i : ItemLine) → markup (row i) ≡ markup (row no_item))
    → (is : List ItemLine) → SameMarkup (map row is) (map row (map (λ _. no_item) is))
rows-SameMarkup row same [] = tt
rows-SameMarkup row same (i ∷ is) = (same i, rows-SameMarkup row same is)

registered_rows-markup :
    (is : List ItemLine)
    → markup (registered_rows is) ≡ markup (registered_rows (map (λ _. no_item) is))
unfolding registered_rows
registered_rows-markup [] = refl
registered_rows-markup (i ∷ is) =
    concat-SameMarkup (map registered_tr (i ∷ is)) (map registered_tr (map (λ _. no_item) (i ∷ is)))
      (rows-SameMarkup registered_tr registered_tr-markup (i ∷ is))

failed_rows-markup :
    (is : List ItemLine) → markup (failed_rows is) ≡ markup (failed_rows (map (λ _. no_item) is))
unfolding failed_rows
failed_rows-markup [] = refl
failed_rows-markup (i ∷ is) =
    concat-SameMarkup (map failed_tr (i ∷ is)) (map failed_tr (map (λ _. no_item) (i ∷ is)))
      (rows-SameMarkup failed_tr failed_tr-markup (i ∷ is))

-- Where the dates and times of the slot have no character that begins or ends a tag or an
-- attribute, these characters of the mail, in their order, are those of the template with as many
-- rows and nothing in them, whatever the student, the semester and the items say.
pub render_html-markup :
    (user : Student) (semester : Text) (slot : Slot) (summary : Summary)
    → IsPlain slot
    → markup (render_html user semester slot summary)
      ≡ markup (render_html nobody [] no_slot (blank summary))
unfolding render_html
render_html-markup user semester slot summary plain =
    concat-SameMarkup (page_pieces user semester slot summary)
      (page_pieces nobody [] no_slot (blank summary))
      (ground (
        arith,
        escape_html-markup semester,
        escape_html-markup user.name,
        escape_html-markup user.student_code,
        escape_html-markup [],
        plain.start_date,
        plain.end_date,
        plain.start_time,
        plain.end_time,
        registered_rows-markup summary.registered_items,
        failed_rows-markup summary.failed_items,
      ))
