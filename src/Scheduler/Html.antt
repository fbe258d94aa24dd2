-- ===== src/Scheduler/Html.antt =====
-- apps/scheduler/src/notification/registration-notification.service.ts: renderHtml, with the lines
-- and the spaces of its templates.
pub mod Markup
use do_an_tot_nghiep.Base.{List, [], ◌∷◌, map}
use do_an_tot_nghiep.Base.Text.{Text, codes}
use do_an_tot_nghiep.Api.Slots.{Slot}
use do_an_tot_nghiep.Scheduler.Mail.{
  SectionLine, ItemLine, Student, Summary, escape_html, format_schedule, decimal, text_of, concat,
  or_unknown, unless_empty,
}

-- `<td>${this.escapeHtml(section?.field ?? '')}</td>`
pub cell : (SectionLine → Text) → ItemLine → Text
cell field i = escape_html (text_of field i.section)

abbrev credits_cell : ItemLine → Text
credits_cell i = text_of (λ s. decimal s.credits) i.section

abbrev pub registered_pieces : ItemLine → List Text
registered_pieces item =
    codes "\n              <tr>\n                <td>"
    ∷ cell (λ s. s.section_code) item
    ∷ codes "</td>\n                <td>"
    ∷ cell (λ s. s.course_code) item
    ∷ codes "</td>\n                <td>"
    ∷ cell (λ s. s.course_name) item
    ∷ codes "</td>\n                <td>"
    ∷ credits_cell item
    ∷ codes "</td>\n                <td>"
    ∷ format_schedule item.section
    ∷ codes "</td>\n              </tr>\n            "
    ∷ []

pub registered_tr : ItemLine → Text
registered_tr item = concat (registered_pieces item)

abbrev pub failed_pieces : ItemLine → List Text
failed_pieces item =
    codes "\n              <tr>\n                <td>"
    ∷ cell (λ s. s.section_code) item
    ∷ codes "</td>\n                <td>"
    ∷ cell (λ s. s.course_code) item
    ∷ codes "</td>\n                <td>"
    ∷ cell (λ s. s.course_name) item
    ∷ codes "</td>\n                <td>"
    ∷ escape_html (or_unknown item.failure_reason)
    ∷ codes "</td>\n              </tr>\n            "
    ∷ []

pub failed_tr : ItemLine → Text
failed_tr item = concat (failed_pieces item)

pub registered_rows : List ItemLine → Text
registered_rows items =
    unless_empty items (codes "<tr><td colspan=\"5\">Chưa có lớp đăng ký thành công.</td></tr>")
      (concat (map registered_tr items))

pub failed_rows : List ItemLine → Text
failed_rows items =
    unless_empty items
      (codes
        "<tr><td colspan=\"4\">Không có mục thất bại trong các batch chưa thông báo.</td></tr>")
      (concat (map failed_tr items))

abbrev pub page_pieces : Student → Text → Slot → Summary → List Text
page_pieces user semester slot summary =
    codes "\n"
    ∷ codes "      <div style=\"font-family:Arial,sans-serif;color:#111827;line-height:1.5\">\n"
    ∷ codes "        <h2>Kết quả đăng ký học phần kỳ "
    ∷ escape_html semester
    ∷ codes "</h2>\n        <p>Xin chào "
    ∷ escape_html user.name
    ∷ codes " ("
    ∷ escape_html user.student_code
    ∷ codes "),</p>\n        <p>Khung đăng ký của bạn: "
    ∷ slot.start_date
    ∷ codes " đến "
    ∷ slot.end_date
    ∷ codes ", "
    ∷ slot.start_time
    ∷ codes " đến "
    ∷ slot.end_time
    ∷ codes " mỗi ngày.</p>\n\n        <h3>Lớp đang đăng ký thành công</h3>\n"
    ∷ codes
        "        <table border=\"1\" cellpadding=\"8\" cellspacing=\"0\" style=\"border-collapse:collapse;width:100%\">\n"
    ∷ codes "          <thead>\n            <tr>\n              <th>Mã lớp</th>\n"
    ∷ codes "              <th>Mã môn</th>\n              <th>Tên môn</th>\n"
    ∷ codes "              <th>TC</th>\n              <th>Lịch</th>\n"
    ∷ codes "            </tr>\n          </thead>\n          <tbody>"
    ∷ registered_rows summary.registered_items
    ∷ codes "</tbody>\n        </table>\n\n        <h3>Mục thất bại cần lưu ý</h3>\n"
    ∷ codes
        "        <table border=\"1\" cellpadding=\"8\" cellspacing=\"0\" style=\"border-collapse:collapse;width:100%\">\n"
    ∷ codes "          <thead>\n            <tr>\n              <th>Mã lớp</th>\n"
    ∷ codes "              <th>Mã môn</th>\n              <th>Tên môn</th>\n"
    ∷ codes "              <th>Lý do</th>\n            </tr>\n          </thead>\n"
    ∷ codes "          <tbody>"
    ∷ failed_rows summary.failed_items
    ∷ codes "</tbody>\n        </table>\n\n"
    ∷ codes
        "        <p style=\"color:#6b7280;font-size:12px\">Email này được gửi tự động sau khi khung đăng ký của bạn kết thúc.</p>\n"
    ∷ codes "      </div>\n    "
    ∷ []

-- renderHtml
pub render_html : Student → Text → Slot → Summary → Text
render_html user semester slot summary = concat (page_pieces user semester slot summary)
