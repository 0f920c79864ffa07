-- ===== src/Constants.antt =====
-- The tables of core/constants.py that risk checks and orders read.
use stocks_fno.Prelude.{ℕ, List, [], ◌∷◌, String}
use stocks_fno.Dict.{Dict}

unfoldable pub fno_symbols : List String
fno_symbols =
    "RELIANCE" ∷ "TCS" ∷ "INFY" ∷ "HDFCBANK" ∷ "ICICIBANK" ∷ "SBIN" ∷ "BAJFINANCE" ∷ "KOTAKBANK"
    ∷ "AXISBANK" ∷ "LT" ∷ "HINDUNILVR" ∷ "ITC" ∷ "WIPRO" ∷ "HCLTECH" ∷ "MARUTI" ∷ "SUNPHARMA"
    ∷ "M&M" ∷ "BHARTIARTL" ∷ "ADANIPORTS" ∷ "ASIANPAINT" ∷ "TITAN" ∷ "BAJAJ-AUTO" ∷ "EICHERMOT"
    ∷ "INDUSINDBK" ∷ "DRREDDY" ∷ "CIPLA" ∷ "DIVISLAB" ∷ "JSWSTEEL" ∷ "HINDALCO" ∷ "GRASIM"
    ∷ "TATACONSUM" ∷ "APOLLOHOSP" ∷ "NESTLEIND" ∷ "TECHM" ∷ "BPCL" ∷ "ONGC" ∷ "NTPC" ∷ "POWERGRID"
    ∷ "ULTRACEMCO" ∷ "TATASTEEL" ∷ "COALINDIA" ∷ "ABB" ∷ "ADANIENSOL" ∷ "ADANIENT" ∷ "ADANIGREEN"
    ∷ "ADANIPOWER" ∷ "AMBER" ∷ "ASHOKLEY" ∷ "AUBANK" ∷ "BAJAJFINSV" ∷ "BANDHANBNK" ∷ "BANKBARODA"
    ∷ "BDL" ∷ "BEL" ∷ "BHARATFORG" ∷ "BHEL" ∷ "BOSCHLTD" ∷ "BRITANNIA" ∷ "BSE" ∷ "CANBK" ∷ "CGPOWER"
    ∷ "CHOLAFIN" ∷ "COFORGE" ∷ "CUMMINSIND" ∷ "DELHIVERY" ∷ "DIXON" ∷ "DLF" ∷ "DMART" ∷ "ETERNAL"
    ∷ "FORCEMOT" ∷ "GAIL" ∷ "GODREJCP" ∷ "GVT&D" ∷ "HAL" ∷ "HDFCAMC" ∷ "HDFCLIFE" ∷ "HEROMOTOCO"
    ∷ "HINDPETRO" ∷ "HINDZINC" ∷ "HYUNDAI" ∷ "IDEA" ∷ "IDFCFIRSTB" ∷ "INDIGO" ∷ "INDUSTOWER"
    ∷ "JIOFIN" ∷ "JUBLFOOD" ∷ "KALYANKJIL" ∷ "KAYNES" ∷ "KEI" ∷ "KPITTECH" ∷ "LAURUSLABS" ∷ "LICI"
    ∷ "LODHA" ∷ "LTF" ∷ "LTM" ∷ "LUPIN" ∷ "MANAPPURAM" ∷ "MAXHEALTH" ∷ "MAZDOCK" ∷ "MCX"
    ∷ "MOTHERSON" ∷ "MUTHOOTFIN" ∷ "NATIONALUM" ∷ "NAUKRI" ∷ "NYKAA" ∷ "OFSS" ∷ "PATANJALI"
    ∷ "PAYTM" ∷ "PERSISTENT" ∷ "PFC" ∷ "PIDILITIND" ∷ "POLICYBZR" ∷ "POLYCAB" ∷ "POWERINDIA"
    ∷ "RADICO" ∷ "RECLTD" ∷ "SAIL" ∷ "SBILIFE" ∷ "SHRIRAMFIN" ∷ "SOLARINDS" ∷ "SONACOMS" ∷ "SUZLON"
    ∷ "SWIGGY" ∷ "TMPV" ∷ "TORNTPHARM" ∷ "TRENT" ∷ "TVSMOTOR" ∷ "UNIONBANK" ∷ "VBL" ∷ "VEDL"
    ∷ "WAAREEENER" ∷ "ZYDUSLIFE" ∷ []

unfoldable pub fno_sectors : Dict String
fno_sectors =
    ("RELIANCE", "Energy")
    ∷ ("TCS", "IT")
    ∷ ("INFY", "IT")
    ∷ ("HDFCBANK", "Banking")
    ∷ ("ICICIBANK", "Banking")
    ∷ ("SBIN", "Banking")
    ∷ ("BAJFINANCE", "NBFC")
    ∷ ("KOTAKBANK", "Banking")
    ∷ ("AXISBANK", "Banking")
    ∷ ("LT", "Infrastructure")
    ∷ ("HINDUNILVR", "FMCG")
    ∷ ("ITC", "FMCG")
    ∷ ("WIPRO", "IT")
    ∷ ("HCLTECH", "IT")
    ∷ ("MARUTI", "Auto")
    ∷ ("SUNPHARMA", "Pharma")
    ∷ ("M&M", "Auto")
    ∷ ("BHARTIARTL", "Telecom")
    ∷ ("ADANIPORTS", "Infrastructure")
    ∷ ("ASIANPAINT", "Chemicals")
    ∷ ("TITAN", "Consumer")
    ∷ ("BAJAJ-AUTO", "Auto")
    ∷ ("EICHERMOT", "Auto")
    ∷ ("INDUSINDBK", "Banking")
    ∷ ("DRREDDY", "Pharma")
    ∷ ("CIPLA", "Pharma")
    ∷ ("DIVISLAB", "Pharma")
    ∷ ("JSWSTEEL", "Metals")
    ∷ ("HINDALCO", "Metals")
    ∷ ("GRASIM", "Chemicals")
    ∷ ("TATACONSUM", "FMCG")
    ∷ ("APOLLOHOSP", "Healthcare")
    ∷ ("NESTLEIND", "FMCG")
    ∷ ("TECHM", "IT")
    ∷ ("BPCL", "Energy")
    ∷ ("ONGC", "Energy")
    ∷ ("NTPC", "Power")
    ∷ ("POWERGRID", "Power")
    ∷ ("ULTRACEMCO", "Cement")
    ∷ ("TATASTEEL", "Metals")
    ∷ ("COALINDIA", "Mining")
    ∷ ("360ONE", "Financial Services")
    ∷ ("ABB", "Capital Goods")
    ∷ ("ABCAPITAL", "NBFC")
    ∷ ("ADANIENSOL", "Power")
    ∷ ("ADANIENT", "Infrastructure")
    ∷ ("ADANIGREEN", "Power")
    ∷ ("ADANIPOWER", "Power")
    ∷ ("ALKEM", "Pharma")
    ∷ ("AMBER", "Consumer Durables")
    ∷ ("AMBUJACEM", "Cement")
    ∷ ("ANGELONE", "Financial Services")
    ∷ ("APLAPOLLO", "Metals")
    ∷ ("ASHOKLEY", "Auto")
    ∷ ("ASTRAL", "Chemicals")
    ∷ ("AUBANK", "Banking")
    ∷ ("AUROPHARMA", "Pharma")
    ∷ ("BAJAJFINSV", "NBFC")
    ∷ ("BAJAJHLDNG", "NBFC")
    ∷ ("BANDHANBNK", "Banking")
    ∷ ("BANKBARODA", "Banking")
    ∷ ("BANKINDIA", "Banking")
    ∷ ("BDL", "Defence")
    ∷ ("BEL", "Defence")
    ∷ ("BHARATFORG", "Auto Ancillary")
    ∷ ("BHEL", "Capital Goods")
    ∷ ("BIOCON", "Pharma")
    ∷ ("BLUESTARCO", "Consumer Durables")
    ∷ ("BOSCHLTD", "Auto Ancillary")
    ∷ ("BRITANNIA", "FMCG")
    ∷ ("BSE", "Financial Services")
    ∷ ("CAMS", "Financial Services")
    ∷ ("CANBK", "Banking")
    ∷ ("CDSL", "Financial Services")
    ∷ ("CGPOWER", "Capital Goods")
    ∷ ("CHOLAFIN", "NBFC")
    ∷ ("COCHINSHIP", "Defence")
    ∷ ("COFORGE", "IT")
    ∷ ("COLPAL", "FMCG")
    ∷ ("CONCOR", "Infrastructure")
    ∷ ("CROMPTON", "Consumer Durables")
    ∷ ("CUMMINSIND", "Capital Goods")
    ∷ ("DABUR", "FMCG")
    ∷ ("DALBHARAT", "Cement")
    ∷ ("DELHIVERY", "Logistics")
    ∷ ("DIXON", "Consumer Durables")
    ∷ ("DLF", "Realty")
    ∷ ("DMART", "Retail")
    ∷ ("ETERNAL", "Consumer")
    ∷ ("FEDERALBNK", "Banking")
    ∷ ("FORCEMOT", "Auto")
    ∷ ("FORTIS", "Healthcare")
    ∷ ("GAIL", "Energy")
    ∷ ("GLENMARK", "Pharma")
    ∷ ("GMRAIRPORT", "Infrastructure")
    ∷ ("GODFRYPHLP", "FMCG")
    ∷ ("GODREJCP", "FMCG")
    ∷ ("GODREJPROP", "Realty")
    ∷ ("GVT&D", "Capital Goods")
    ∷ ("HAL", "Defence")
    ∷ ("HAVELLS", "Consumer Durables")
    ∷ ("HDFCAMC", "Financial Services")
    ∷ ("HDFCLIFE", "Insurance")
    ∷ ("HEROMOTOCO", "Auto")
    ∷ ("HINDPETRO", "Energy")
    ∷ ("HINDZINC", "Metals")
    ∷ ("HYUNDAI", "Auto")
    ∷ ("ICICIGI", "Insurance")
    ∷ ("ICICIPRULI", "Insurance")
    ∷ ("IDEA", "Telecom")
    ∷ ("IDFCFIRSTB", "Banking")
    ∷ ("IEX", "Power")
    ∷ ("INDHOTEL", "Hospitality")
    ∷ ("INDIANB", "Banking")
    ∷ ("INDIGO", "Aviation")
    ∷ ("INDUSTOWER", "Telecom")
    ∷ ("INOXWIND", "Power")
    ∷ ("IOC", "Energy")
    ∷ ("IREDA", "NBFC")
    ∷ ("IRFC", "NBFC")
    ∷ ("JINDALSTEL", "Metals")
    ∷ ("JIOFIN", "NBFC")
    ∷ ("JSWENERGY", "Power")
    ∷ ("JUBLFOOD", "FMCG")
    ∷ ("KALYANKJIL", "Consumer")
    ∷ ("KAYNES", "Consumer Durables")
    ∷ ("KEI", "Capital Goods")
    ∷ ("KFINTECH", "Financial Services")
    ∷ ("KPITTECH", "IT")
    ∷ ("LAURUSLABS", "Pharma")
    ∷ ("LICHSGFIN", "NBFC")
    ∷ ("LICI", "Insurance")
    ∷ ("LODHA", "Realty")
    ∷ ("LTF", "NBFC")
    ∷ ("LTM", "IT")
    ∷ ("LUPIN", "Pharma")
    ∷ ("MANAPPURAM", "NBFC")
    ∷ ("MANKIND", "Pharma")
    ∷ ("MARICO", "FMCG")
    ∷ ("MAXHEALTH", "Healthcare")
    ∷ ("MAZDOCK", "Defence")
    ∷ ("MCX", "Financial Services")
    ∷ ("MFSL", "Insurance")
    ∷ ("MOTHERSON", "Auto Ancillary")
    ∷ ("MOTILALOFS", "Financial Services")
    ∷ ("MPHASIS", "IT")
    ∷ ("MUTHOOTFIN", "NBFC")
    ∷ ("NAM-INDIA", "Financial Services")
    ∷ ("NATIONALUM", "Metals")
    ∷ ("NAUKRI", "IT")
    ∷ ("NBCC", "Infrastructure")
    ∷ ("NHPC", "Power")
    ∷ ("NMDC", "Mining")
    ∷ ("NYKAA", "Consumer")
    ∷ ("OBEROIRLTY", "Realty")
    ∷ ("OFSS", "IT")
    ∷ ("OIL", "Energy")
    ∷ ("PAGEIND", "Consumer")
    ∷ ("PATANJALI", "FMCG")
    ∷ ("PAYTM", "Financial Services")
    ∷ ("PERSISTENT", "IT")
    ∷ ("PETRONET", "Energy")
    ∷ ("PFC", "NBFC")
    ∷ ("PGEL", "Consumer Durables")
    ∷ ("PHOENIXLTD", "Realty")
    ∷ ("PIDILITIND", "Chemicals")
    ∷ ("PIIND", "Chemicals")
    ∷ ("PNB", "Banking")
    ∷ ("PNBHOUSING", "NBFC")
    ∷ ("POLICYBZR", "Financial Services")
    ∷ ("POLYCAB", "Capital Goods")
    ∷ ("POWERINDIA", "Capital Goods")
    ∷ ("PREMIERENE", "Power")
    ∷ ("PRESTIGE", "Realty")
    ∷ ("RADICO", "FMCG")
    ∷ ("RBLBANK", "Banking")
    ∷ ("RECLTD", "NBFC")
    ∷ ("RVNL", "Infrastructure")
    ∷ ("SAIL", "Metals")
    ∷ ("SBICARD", "Financial Services")
    ∷ ("SBILIFE", "Insurance")
    ∷ ("SHREECEM", "Cement")
    ∷ ("SHRIRAMFIN", "NBFC")
    ∷ ("SIEMENS", "Capital Goods")
    ∷ ("SOLARINDS", "Chemicals")
    ∷ ("SONACOMS", "Auto Ancillary")
    ∷ ("SRF", "Chemicals")
    ∷ ("SUPREMEIND", "Chemicals")
    ∷ ("SUZLON", "Power")
    ∷ ("SWIGGY", "Consumer")
    ∷ ("TATAELXSI", "IT")
    ∷ ("TATAPOWER", "Power")
    ∷ ("TIINDIA", "Auto Ancillary")
    ∷ ("TMPV", "Auto")
    ∷ ("TORNTPHARM", "Pharma")
    ∷ ("TRENT", "Retail")
    ∷ ("TVSMOTOR", "Auto")
    ∷ ("UNIONBANK", "Banking")
    ∷ ("UNITDSPR", "FMCG")
    ∷ ("UNOMINDA", "Auto Ancillary")
    ∷ ("UPL", "Chemicals")
    ∷ ("VBL", "FMCG")
    ∷ ("VEDL", "Metals")
    ∷ ("VMM", "Retail")
    ∷ ("VOLTAS", "Consumer Durables")
    ∷ ("WAAREEENER", "Power")
    ∷ ("YESBANK", "Banking")
    ∷ ("ZYDUSLIFE", "Pharma")
    ∷ []

unfoldable pub fno_lot_sizes : Dict ℕ
fno_lot_sizes =
    ("RELIANCE", 500)
    ∷ ("TCS", 225)
    ∷ ("INFY", 400)
    ∷ ("HDFCBANK", 650)
    ∷ ("ICICIBANK", 700)
    ∷ ("SBIN", 750)
    ∷ ("BAJFINANCE", 750)
    ∷ ("KOTAKBANK", 2000)
    ∷ ("AXISBANK", 625)
    ∷ ("LT", 175)
    ∷ ("HINDUNILVR", 300)
    ∷ ("ITC", 1725)
    ∷ ("WIPRO", 3000)
    ∷ ("HCLTECH", 400)
    ∷ ("MARUTI", 50)
    ∷ ("SUNPHARMA", 350)
    ∷ ("M&M", 200)
    ∷ ("BHARTIARTL", 475)
    ∷ ("ADANIPORTS", 475)
    ∷ ("ASIANPAINT", 250)
    ∷ ("TITAN", 175)
    ∷ ("BAJAJ-AUTO", 75)
    ∷ ("EICHERMOT", 100)
    ∷ ("INDUSINDBK", 700)
    ∷ ("DRREDDY", 625)
    ∷ ("CIPLA", 425)
    ∷ ("DIVISLAB", 100)
    ∷ ("JSWSTEEL", 675)
    ∷ ("HINDALCO", 700)
    ∷ ("GRASIM", 250)
    ∷ ("TATACONSUM", 550)
    ∷ ("APOLLOHOSP", 125)
    ∷ ("NESTLEIND", 500)
    ∷ ("TECHM", 600)
    ∷ ("BPCL", 1975)
    ∷ ("ONGC", 2250)
    ∷ ("NTPC", 1500)
    ∷ ("POWERGRID", 1900)
    ∷ ("ULTRACEMCO", 50)
    ∷ ("TATASTEEL", 2750)
    ∷ ("COALINDIA", 1350)
    ∷ []

-- the strategies that `STRATEGY_CAPITAL_ALLOCATION` lists; its percentages are not read
unfoldable pub allocated_strategies : List String
allocated_strategies =
    "ema_crossover_v1" ∷ "credit_spread_v1" ∷ "iron_condor_v1" ∷ "momentum_v1" ∷ []

abbrev pub max_sector_positions : ℕ
max_sector_positions = 2
