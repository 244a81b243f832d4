-- ===== src/Go.antt =====
-- What the program uses of Go's standard library, on the code points of a text: strings.Split and
-- decimal numerals here, the packages net and strconv in the children.
pub mod Text
pub mod Net
pub mod Print
pub mod Int
pub mod Strconv
pub mod Json
