-- ===== src/Bot/Image/Tests.antt =====
-- internal/bot/image.go at small images.
use pixel_beetle.Prelude.{ℕ, ◌≡◌, refl, some, [], ◌∷◌, if◌then◌else◌, ◌==◌}
use pixel_beetle.Bot.Blueprint.{Blueprint}
use pixel_beetle.Bot.Image.{Rgba, Image, image_to_blueprint}

abbrev tint : ℕ → Rgba
tint x = if x == 0 then (0, 0, 0, 0) else (0xffff, 0, 0, 0xffff)

-- Four columns of two pixels, the first column transparent and the others red.
abbrev banner : Image
banner = record { width = 4; height = 2; pixel = λ x y. tint x }

-- Half of the first box is transparent, so that it is blended over the canvas.
test_banner :
    image_to_blueprint banner 2 2
    ≡ some (record {
      w = 2;
      h = 1;
      placements = record { x = 0; y = 0; color = 6 } ∷ record { x = 1; y = 0; color = 7 } ∷ [];
    })
unfolding image_to_blueprint pixel_beetle.Bot.Blueprint.scan_rows pixel_beetle.Bot.Image.box_color
    pixel_beetle.Bot.Image.sums_color pixel_beetle.Bot.Palette.nearest_color
    pixel_beetle.Bot.Image.blend_over_canvas
test_banner = refl

-- One of ten pixels is opaque: the cell is left out.
test_faint :
    image_to_blueprint
      (record { width = 11; height = 1; pixel = λ x y. tint (if x == 3 then 1 else 0) })
      1
      1
    ≡ some (record { w = 1; h = 1; placements = [] })
unfolding image_to_blueprint pixel_beetle.Bot.Blueprint.scan_rows pixel_beetle.Bot.Image.box_color
    pixel_beetle.Bot.Image.sums_color pixel_beetle.Bot.Palette.nearest_color
    pixel_beetle.Bot.Image.blend_over_canvas
test_faint = refl
