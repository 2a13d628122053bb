-- ===== src/Bot/Shapes/Text/Font.antt =====
-- `fontGlyphs` of internal/bot/shapes.go: the seven rows of each glyph, top down, by its rune.
use Prim.Native.String.{String}
use pixel_beetle.Prelude.{ℕ, List, [], ◌∷◌, Table, codes}

abbrev glyph : String → String → String → String → String → String → String → List (List ℕ)
glyph a b c d e f g = codes a ∷ codes b ∷ codes c ∷ codes d ∷ codes e ∷ codes f ∷ codes g ∷ []

unfoldable pub font_glyphs : Table (List (List ℕ))
font_glyphs =
    (32, glyph "....." "....." "....." "....." "....." "....." ".....")
    ∷ (65, glyph ".XXX." "X...X" "X...X" "XXXXX" "X...X" "X...X" "X...X")
    ∷ (66, glyph "XXXX." "X...X" "X...X" "XXXX." "X...X" "X...X" "XXXX.")
    ∷ (67, glyph ".XXXX" "X...." "X...." "X...." "X...." "X...." ".XXXX")
    ∷ (68, glyph "XXXX." "X...X" "X...X" "X...X" "X...X" "X...X" "XXXX.")
    ∷ (69, glyph "XXXXX" "X...." "X...." "XXXX." "X...." "X...." "XXXXX")
    ∷ (70, glyph "XXXXX" "X...." "X...." "XXXX." "X...." "X...." "X....")
    ∷ (71, glyph ".XXXX" "X...." "X...." "X.XXX" "X...X" "X...X" ".XXX.")
    ∷ (72, glyph "X...X" "X...X" "X...X" "XXXXX" "X...X" "X...X" "X...X")
    ∷ (73, glyph "XXXXX" "..X.." "..X.." "..X.." "..X.." "..X.." "XXXXX")
    ∷ (74, glyph "..XXX" "...X." "...X." "...X." "...X." "X..X." ".XX..")
    ∷ (75, glyph "X...X" "X..X." "X.X.." "XX..." "X.X.." "X..X." "X...X")
    ∷ (76, glyph "X...." "X...." "X...." "X...." "X...." "X...." "XXXXX")
    ∷ (77, glyph "X...X" "XX.XX" "X.X.X" "X.X.X" "X...X" "X...X" "X...X")
    ∷ (78, glyph "X...X" "XX..X" "X.X.X" "X..XX" "X...X" "X...X" "X...X")
    ∷ (79, glyph ".XXX." "X...X" "X...X" "X...X" "X...X" "X...X" ".XXX.")
    ∷ (80, glyph "XXXX." "X...X" "X...X" "XXXX." "X...." "X...." "X....")
    ∷ (81, glyph ".XXX." "X...X" "X...X" "X...X" "X.X.X" "X..X." ".XX.X")
    ∷ (82, glyph "XXXX." "X...X" "X...X" "XXXX." "X.X.." "X..X." "X...X")
    ∷ (83, glyph ".XXXX" "X...." "X...." ".XXX." "....X" "....X" "XXXX.")
    ∷ (84, glyph "XXXXX" "..X.." "..X.." "..X.." "..X.." "..X.." "..X..")
    ∷ (85, glyph "X...X" "X...X" "X...X" "X...X" "X...X" "X...X" ".XXX.")
    ∷ (86, glyph "X...X" "X...X" "X...X" "X...X" "X...X" ".X.X." "..X..")
    ∷ (87, glyph "X...X" "X...X" "X...X" "X.X.X" "X.X.X" "XX.XX" "X...X")
    ∷ (88, glyph "X...X" "X...X" ".X.X." "..X.." ".X.X." "X...X" "X...X")
    ∷ (89, glyph "X...X" "X...X" ".X.X." "..X.." "..X.." "..X.." "..X..")
    ∷ (90, glyph "XXXXX" "....X" "...X." "..X.." ".X..." "X...." "XXXXX")
    ∷ (48, glyph ".XXX." "X...X" "X..XX" "X.X.X" "XX..X" "X...X" ".XXX.")
    ∷ (49, glyph "..X.." ".XX.." "..X.." "..X.." "..X.." "..X.." "XXXXX")
    ∷ (50, glyph ".XXX." "X...X" "....X" "...X." "..X.." ".X..." "XXXXX")
    ∷ (51, glyph "XXXX." "....X" "....X" ".XXX." "....X" "....X" "XXXX.")
    ∷ (52, glyph "...X." "..XX." ".X.X." "X..X." "XXXXX" "...X." "...X.")
    ∷ (53, glyph "XXXXX" "X...." "XXXX." "....X" "....X" "X...X" ".XXX.")
    ∷ (54, glyph ".XXX." "X...." "X...." "XXXX." "X...X" "X...X" ".XXX.")
    ∷ (55, glyph "XXXXX" "....X" "...X." "..X.." ".X..." ".X..." ".X...")
    ∷ (56, glyph ".XXX." "X...X" "X...X" ".XXX." "X...X" "X...X" ".XXX.")
    ∷ (57, glyph ".XXX." "X...X" "X...X" ".XXXX" "....X" "....X" ".XXX.")
    ∷ (46, glyph "....." "....." "....." "....." "....." "..XX." "..XX.")
    ∷ (44, glyph "....." "....." "....." "....." "..XX." "..X.." ".X...")
    ∷ (58, glyph "....." "..X.." "..X.." "....." "..X.." "..X.." ".....")
    ∷ (33, glyph "..X.." "..X.." "..X.." "..X.." "..X.." "....." "..X..")
    ∷ (63, glyph ".XXX." "X...X" "....X" "...X." "..X.." "....." "..X..")
    ∷ (39, glyph "..X.." "..X.." ".X..." "....." "....." "....." ".....")
    ∷ (45, glyph "....." "....." "....." ".XXX." "....." "....." ".....")
    ∷ (40, glyph "...X." "..X.." ".X..." ".X..." ".X..." "..X.." "...X.")
    ∷ (41, glyph ".X..." "..X.." "...X." "...X." "...X." "..X.." ".X...")
    ∷ (47, glyph "....X" "....X" "...X." "..X.." ".X..." "X...." "X....")
    ∷ (35, glyph ".X.X." ".X.X." "XXXXX" ".X.X." "XXXXX" ".X.X." ".X.X.")
    ∷ (43, glyph "....." "..X.." "..X.." "XXXXX" "..X.." "..X.." ".....")
    ∷ (61, glyph "....." "....." "XXXXX" "....." "XXXXX" "....." ".....")
    ∷ (42, glyph "XXXXX" "XXXXX" "XXXXX" "XXXXX" "XXXXX" "XXXXX" "XXXXX")
    ∷ []
