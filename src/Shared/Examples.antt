-- ===== src/Shared/Examples.antt =====
-- Week ranges as the sections have them, and their overlap.
use do_an_tot_nghiep.Base.{◌≡◌, some}
use do_an_tot_nghiep.Base.Text.{Text, codes}
use do_an_tot_nghiep.Shared.WeekRange.{week_ranges_overlap}
use do_an_tot_nghiep.Shared.WeekRange.Overlap.{
  week_intervals, intervals_overlap, week_ranges_overlap-intervals,
}

-- Its first range counts downwards, and has a blank token after it.
abbrev spring : Text
spring = codes " 9 - 2; ,11"

abbrev autumn : Text
autumn = codes "1,10"

week_ranges_overlap-intervals_example :
    week_ranges_overlap (some spring) (some autumn)
    ≡ intervals_overlap (week_intervals (some spring)) (week_intervals (some autumn))
week_ranges_overlap-intervals_example = week_ranges_overlap-intervals (some spring) (some autumn)
